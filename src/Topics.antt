-- ===== src/Topics.antt =====
-- server/services/mqtt_client.py: the topics of the racks, and the handlers that a message is for.
pub mod Parsed
use vivarium_connection.Common.{
  ℕ, String, Bool, true, false, ◌&&◌, ◌||◌, Option, none, some, List, [], ◌∷◌, ◌++◌, ◌==◌,
  if◌then◌else◌,
}
use vivarium_connection.Common.Text.{Text, codes, text_eq}

unfoldable pub add_head : ℕ → List Text → List Text
add_head c [] = (c ∷ []) ∷ []
add_head c (part ∷ parts) = (c ∷ part) ∷ parts

-- topic.split("/")
unfoldable pub split : Text → List Text
split [] = [] ∷ []
split (c ∷ cs) = let parts = split cs in if c == b'/' then [] ∷ parts else add_head c parts

unfoldable pub third : List Text → Option Text
third (a ∷ b ∷ rack_id ∷ rest) =
    if text_eq a (codes "vivarium") && text_eq b (codes "rack") then some rack_id else none
third _ = none

unfoldable pub extract_rack_id : Text → Option Text
extract_rack_id topic = third (split topic)

unfoldable pub fourth : List Text → Option Text
fourth (a ∷ b ∷ c ∷ subtopic ∷ rest) = some subtopic
fourth _ = none

unfoldable pub extract_subtopic : Text → Option Text
extract_subtopic topic = fourth (split topic)

-- TOPIC_COMMAND.format(rack_id=rack_id), and the topics of the other subtopics
unfoldable pub topic_of : Text → Text → Text
topic_of rack_id subtopic = codes "vivarium/rack/" ++ (rack_id ++ (b'/' ∷ subtopic))

-- the pattern of a handler: "*", or the subtopic, which is "" for a short topic
unfoldable pub is_for : Option Text → Text → Bool
is_for none pattern = text_eq pattern (codes "*") || text_eq pattern []
is_for (some subtopic) pattern = text_eq pattern (codes "*") || text_eq pattern subtopic

-- The handlers that `_on_message` calls, by their patterns, in the order of their registration. What
-- one of them raises is caught, so that the next ones are called all the same.
unfoldable pub called : Text → List Text → List Text
called topic [] = []
called topic (pattern ∷ patterns) =
    let rest = called topic patterns in
    if is_for (extract_subtopic topic) pattern then pattern ∷ rest else rest

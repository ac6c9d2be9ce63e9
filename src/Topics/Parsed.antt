-- ===== src/Topics/Parsed.antt =====
-- The topics that server/services/mqtt_client.py publishes to, read back.
use vivarium_connection.Common.{◌≡◌, refl, ap, ◌∙◌, false, some, [], ◌∷◌, ◌++◌, ◌==◌, All}
use vivarium_connection.Common.Text.{Text, codes, text_eq}
use vivarium_connection.Topics.{
  add_head, split, third, fourth, extract_rack_id, extract_subtopic, topic_of,
}

-- a text without a slash
abbrev pub IsPart : Text → Type 0
IsPart text = All (λ c. (c == b'/') ≡ false) text

split-part : (part rest : Text) → IsPart part → split (part ++ (b'/' ∷ rest)) ≡ part ∷ split rest
unfolding split
split-part [] rest h = refl
split-part (c ∷ cs) rest (h, hs) = rw (h, split-part cs rest hs) (unfold add_head in refl)

split-last : (part : Text) → IsPart part → split part ≡ part ∷ []
unfolding split
split-last [] h = refl
split-last (c ∷ cs) (h, hs) = rw (h, split-last cs hs) (unfold add_head in refl)

split-topic_of :
    (rack_id subtopic : Text)
    → IsPart rack_id
    → IsPart subtopic
    → split (topic_of rack_id subtopic) ≡ codes "vivarium" ∷ codes "rack" ∷ rack_id ∷ subtopic ∷ []
unfolding topic_of
split-topic_of rack_id subtopic h k =
    split-part (codes "vivarium") _
      (refl, (refl, (refl, (refl, (refl, (refl, (refl, (refl, tt))))))))
    ∙ ap (λ l. codes "vivarium" ∷ l)
        (split-part (codes "rack") _ (refl, (refl, (refl, (refl, tt))))
          ∙ ap (λ l. codes "rack" ∷ l)
              (split-part rack_id subtopic h ∙ ap (λ l. rack_id ∷ l) (split-last subtopic k)))

-- From the topic of a rack and a subtopic, neither of which has a slash, both are read back.
pub extract-topic_of :
    (rack_id subtopic : Text)
    → IsPart rack_id
    → IsPart subtopic
    → (extract_rack_id (topic_of rack_id subtopic) ≡ some rack_id)
      × (extract_subtopic (topic_of rack_id subtopic) ≡ some subtopic)
unfolding extract_rack_id extract_subtopic third fourth text_eq
extract-topic_of rack_id subtopic h k =
    let parts = split-topic_of rack_id subtopic h k in (ap third parts, ap fourth parts)

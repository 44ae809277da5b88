-- ===== src/Configuration/Content/Laws.antt =====
-- What `XML_READ_CONTENT` of src/plc_configuration.c reads, and where it writes past a block.
use plcontainer.Common.{
  ℕ, ◌≡◌, refl, ◌∙◌, inl, inr, Bool, true, false, none, some, List, [], ◌∷◌, ◌&&◌, Bool-cases,
  if◌then◌else◌,
}
use plcontainer.Configuration.Content.{
  Node, XmlField, XmlArray, no_array, store, xml_read_basic_element, Content, no_text, text, texts,
  duplicate, missing, overran, matches, read_single, read_array, xml_read_content,
}

-- The contents of the children that the field names.
unfoldable pub contents : XmlField → List Node → List (List ℕ)
contents field [] = []
contents field (node ∷ nodes) =
    let rest = contents field nodes in if matches field node then node.content ∷ rest else rest

-- A single element: no child of the name, one, or more.
abbrev pub expected_single : Bool → List (List ℕ) → Content
expected_single notnull [] = if notnull then missing else no_text
expected_single notnull (v ∷ []) = text v
expected_single notnull (v ∷ w ∷ vs) = duplicate

-- An array: none although one is needed, up to two, or more.
abbrev pub expected_array : Bool → List (List ℕ) → Content
expected_array notnull [] =
    if notnull then missing else texts (record { room = 0; n = 0; written = [] })
expected_array notnull (v ∷ []) = texts (record { room = 2; n = 1; written = v ∷ [] })
expected_array notnull (v ∷ w ∷ []) = texts (record { room = 2; n = 2; written = v ∷ w ∷ [] })
expected_array notnull (v ∷ w ∷ u ∷ vs) = overran

abbrev pub expected : XmlField → List Node → Content
unfolding contents
expected field nodes =
    if field.single
    then expected_single field.notnull (contents field nodes)
    else expected_array field.notnull (contents field nodes)

single_found :
    (field : XmlField) (v : List ℕ) (nodes : List Node)
    → read_single field (some v) nodes ≡ expected_single field.notnull (v ∷ contents field nodes)
unfolding read_single contents
single_found field v [] = refl
single_found field v (node ∷ nodes) = elim (Bool-cases (matches field node)) [
  | inl e ↦ rw e refl
  | inr e ↦ rw e (single_found field v nodes)
]

single_none :
    (field : XmlField) (nodes : List Node)
    → read_single field none nodes ≡ expected_single field.notnull (contents field nodes)
unfolding read_single contents
single_none field [] = refl
single_none field (node ∷ nodes) = elim (Bool-cases (matches field node)) [
  | inl e ↦ rw e (single_found field node.content nodes)
  | inr e ↦ rw e (single_none field nodes)
]

-- The array after one element and after two: `N` is larger than the room.
abbrev one_element : List ℕ → XmlArray
one_element v = record { room = 2; n = 3; written = v ∷ [] }

abbrev two_elements : List ℕ → List ℕ → XmlArray
two_elements v w = record { room = 2; n = 4; written = v ∷ w ∷ [] }

-- The rest of the children after two elements: the next one is written past the block.
abbrev after_two : List ℕ → List ℕ → List (List ℕ) → Content
after_two v w [] = texts (record { room = 2; n = 2; written = v ∷ w ∷ [] })
after_two v w (u ∷ us) = overran

and_false : (b : Bool) → (b && false) ≡ false
and_false false = refl
and_false true = refl

array_two :
    (field : XmlField) (v w : List ℕ) (nodes : List Node)
    → read_array field 2 (two_elements v w) nodes ≡ after_two v w (contents field nodes)
unfolding read_array contents
array_two field v w [] = rw (and_false field.notnull) refl
array_two field v w (node ∷ nodes) = elim (Bool-cases (matches field node)) [
  | inl e ↦ rw e refl
  | inr e ↦ rw e (array_two field v w nodes)
]

-- The rest of the children after one element.
abbrev after_one : List ℕ → List (List ℕ) → Content
after_one v [] = texts (record { room = 2; n = 1; written = v ∷ [] })
after_one v (w ∷ us) = after_two v w us

array_one :
    (field : XmlField) (v : List ℕ) (nodes : List Node)
    → read_array field 1 (one_element v) nodes ≡ after_one v (contents field nodes)
unfolding read_array contents xml_read_basic_element store
array_one field v [] = rw (and_false field.notnull) refl
array_one field v (node ∷ nodes) = elim (Bool-cases (matches field node)) [
  | inl e ↦ rw e (array_two field v node.content nodes)
  | inr e ↦ rw e (array_one field v nodes)
]

after_one-expected :
    (notnull : Bool) (v : List ℕ) (us : List (List ℕ))
    → after_one v us ≡ expected_array notnull (v ∷ us)
after_one-expected notnull v [] = refl
after_one-expected notnull v (w ∷ []) = refl
after_one-expected notnull v (w ∷ u ∷ us) = refl

array_none :
    (field : XmlField) (nodes : List Node)
    → read_array field 0 no_array nodes ≡ expected_array field.notnull (contents field nodes)
unfolding read_array contents xml_read_basic_element store
array_none field [] = elim (Bool-cases field.notnull) [ inl e ↦ rw e refl | inr e ↦ rw e refl ]
array_none field (node ∷ nodes) = elim (Bool-cases (matches field node)) [
  | inl e ↦ rw e (
      array_one field node.content nodes
      ∙ after_one-expected field.notnull node.content (contents field nodes))
  | inr e ↦ rw e (array_none field nodes)
]

-- Whatever the children, a field that is a single text is read as its one child of the name, and
-- two are an error; an array keeps up to two texts in a block for two, and a third text is
-- written past the end of that block. Without a text the field is left, or it is an error where
-- the field is not optional.
pub xml_read_content-expected :
    (field : XmlField) (nodes : List Node) → xml_read_content field nodes ≡ expected field nodes
unfolding xml_read_content expected contents
xml_read_content-expected field nodes = elim (Bool-cases field.single) [
  | inl e ↦ rw e (single_none field nodes)
  | inr e ↦ rw e (array_none field nodes)
]

-- ===== src/Container/Declaration/Pieces.antt =====
-- What the steps of `parse_container_meta` of src/containers.c take off the source, and that they
-- take off nothing else.
use plcontainer.Common.{
  ℕ, ◌≡◌, refl, ap, ◌∙◌, inl, inr, Bool, true, false, none, some, List, [], ◌∷◌, ◌++◌, All, ◌==◌,
  Bool-cases, Option-cases, ==_iff,
}
use plcontainer.Container.Declaration.{
  isblank, skip, after_text, ends_line, read_line, trim_onto, trim_end,
}

-- All characters pass the test, or none does.
abbrev pub Each : (ℕ → Bool) → List ℕ → Type 0
Each test s = All (λ c. test c ≡ true) s

abbrev pub NoneOf : (ℕ → Bool) → List ℕ → Type 0
NoneOf test s = All (λ c. test c ≡ false) s

pub skip_split :
    (test : ℕ → Bool) (s : List ℕ)
    → (skipped : List ℕ) × (s ≡ skipped ++ skip test s) × Each test skipped
unfolding skip
skip_split test [] = ([], refl, tt)
skip_split test (c ∷ s) = elim (Bool-cases (test c)) [
  | inl e ↦
      let (skipped, same, each) = skip_split test s in
      (c ∷ skipped, rw e (ap (λ l. c ∷ l) same), (e, each))
  | inr e ↦ ([], rw e refl, tt)
]

pub skip-append :
    (test : ℕ → Bool) (skipped : List ℕ) (c : ℕ) (s : List ℕ)
    → Each test skipped
    → test c ≡ false
    → skip test (skipped ++ c ∷ s) ≡ c ∷ s
unfolding skip
skip-append test [] c s h e = rw e refl
skip-append test (d ∷ skipped) c s (h, hs) e = rw h (skip-append test skipped c s hs e)

pub after_text_split :
    (text s : List ℕ) {rest : List ℕ} → after_text text s ≡ some rest → s ≡ text ++ rest
unfolding after_text
after_text_split [] s h = cc
after_text_split (t ∷ text) [] h = cc
after_text_split (t ∷ text) (c ∷ s) h = elim (Bool-cases (c == t)) [
  | inl e ↦ cc ((==_iff c t).0 e, after_text_split text s (rw e at h))
  | inr e ↦ cc (let bad : none ≡ some _ = rw e at h in bad)
]

pub after_text-append : (text rest : List ℕ) → after_text text (text ++ rest) ≡ some rest
unfolding after_text
after_text-append [] rest = refl
after_text-append (t ∷ text) rest = rw ((==_iff t t).1 refl) (after_text-append text rest)

pub read_line_split :
    (s : List ℕ) (line : List ℕ)
    → read_line s ≡ some line
    → (c : ℕ) × (rest : List ℕ) × (s ≡ line ++ c ∷ rest) × (ends_line c ≡ true)
unfolding read_line
read_line_split [] line h = cc
read_line_split (c ∷ s) line h = elim (Bool-cases (ends_line c)) [
  | inl e ↦ (c, s, cc (let same : some [] ≡ some line = rw e at h in same), e)
  | inr e ↦ elim (Option-cases (read_line s)) [
    | inl stops ↦ cc (let bad : none ≡ some line = rw (e, stops) at h in bad)
    | inr (line', found) ↦
        let same : some (c ∷ line') ≡ some line = rw (e, found) at h in
        let (d, rest, split, ends) = read_line_split s line' found in (d, rest, cc, ends)
  ]
]

pub read_line-append :
    (line : List ℕ) (c : ℕ) (rest : List ℕ)
    → NoneOf ends_line line
    → ends_line c ≡ true
    → read_line (line ++ c ∷ rest) ≡ some line
unfolding read_line
read_line-append [] c rest h e = rw e refl
read_line-append (d ∷ line) c rest (h, hs) e = rw (h, read_line-append line c rest hs e) refl

trim_onto_split :
    (c : ℕ) (rest t : List ℕ)
    → Each isblank t
    → (t' : List ℕ) × (c ∷ rest ++ t ≡ trim_onto c rest ++ t') × Each isblank t'
unfolding trim_onto
trim_onto_split c [] t h = elim (Bool-cases (isblank c)) [
  | inl e ↦ (c ∷ t, rw e refl, (e, h))
  | inr e ↦ (t, rw e refl, h)
]
trim_onto_split c (d ∷ rest) t h = (t, refl, h)

pub trim_end_split : (line : List ℕ) → (t : List ℕ) × (line ≡ trim_end line ++ t) × Each isblank t
unfolding trim_end
trim_end_split [] = ([], refl, tt)
trim_end_split (c ∷ line) =
    let (t, same, each) = trim_end_split line in
    let (t', split, blank) = trim_onto_split c (trim_end line) t each in
    (t', ap (λ l. c ∷ l) same ∙ split, blank)

trim_end_blank : (t : List ℕ) → Each isblank t → trim_end t ≡ []
unfolding trim_end
trim_end_blank [] h = refl
trim_end_blank (c ∷ t) (h, hs) = rw (trim_end_blank t hs, h) refl

trim_onto_solid : (c : ℕ) (rest : List ℕ) → isblank c ≡ false → trim_onto c rest ≡ c ∷ rest
unfolding trim_onto
trim_onto_solid c [] h = rw h refl
trim_onto_solid c (d ∷ rest) h = refl

pub trim_end-append : (id t : List ℕ) → NoneOf isblank id → Each isblank t → trim_end (id ++ t) ≡ id
unfolding trim_end
trim_end-append [] t hs e = trim_end_blank t e
trim_end-append (c ∷ id) t (h, hs) e = rw (trim_end-append id t hs e) (trim_onto_solid c id h)

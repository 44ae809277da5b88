-- ===== src/Container/Declaration/Equivalence.antt =====
-- Which sources `parse_container_meta` of src/containers.c takes a runtime from.
use plcontainer.Common.{
  ℕ, suc, ◌≤◌, ◌≡◌, refl, sym, ap, ◌∙◌, true, false, List, [], ◌∷◌, ◌++◌, All, append_assoc, length,
  drop, le→ltb_false, Bool, ◌↔◌, arith,
}
use plcontainer.Container.Declaration.{
  isspace, isblank, ends_line, check_runtime_id, runtime_id, container_text, skip, after_text,
  read_line, take_id, parse_line, parse_id, parse_colon, parse_container, parse_hash,
  parse_container_meta,
}
use plcontainer.Container.Declaration.Regex.{
  Matches, InClass, id_char, runtime_id_regex, check_runtime_id-Matches, Matches-All,
}
use plcontainer.Container.Declaration.Sound.{Declares, parse-Declares}
use plcontainer.Container.Declaration.Pieces.{
  Each, NoneOf, skip-append, after_text-append, read_line-append, trim_end-append,
}

-- A character of an id is neither a blank nor the end of a line.
solid_char : (c : ℕ) → InClass c id_char → (isblank c ≡ false) × (ends_line c ≡ false)
unfolding isblank
solid_char c h = (ground arith, ground arith)

blank_char : (c : ℕ) → isblank c ≡ true → ends_line c ≡ false
unfolding isblank
blank_char c h = ground arith

All-map : {P Q : ℕ → Type 0} (s : List ℕ) → ((c : ℕ) → P c → Q c) → All P s → All Q s
All-map [] f h = tt
All-map (c ∷ s) f (h, hs) = (f c h, All-map s f hs)

NoneOf-append :
    (test : ℕ → Bool) (s t : List ℕ) → NoneOf test s → NoneOf test t → NoneOf test (s ++ t)
NoneOf-append test [] t h k = k
NoneOf-append test (c ∷ s) t (h, hs) k = (h, NoneOf-append test s t hs k)

check_runtime_id_nil : check_runtime_id [] ≡ false
unfolding check_runtime_id
check_runtime_id_nil = refl

take_id_lem :
    (id : List ℕ) → check_runtime_id id ≡ true → length id ≤ 63 → take_id id ≡ runtime_id id
unfolding take_id
take_id_lem [] h fits = cc (check_runtime_id_nil)
take_id_lem (c ∷ id) h fits = rw (le→ltb_false 64 (suc (length (c ∷ id))) (omega arith), h) refl

parse_last :
    (id trail : List ℕ) (ending : ℕ) (code : List ℕ)
    → Matches runtime_id_regex id
    → length id ≤ 63
    → Each isblank trail
    → ends_line ending ≡ true
    → parse_line (read_line (id ++ (trail ++ ending ∷ code))) ≡ runtime_id id
unfolding parse_line
parse_last id trail ending code matches fits blank ends =
    let chars = Matches-All id matches in
    ap parse_line (
      ap read_line (sym (append_assoc id trail (ending ∷ code)))
      ∙ read_line-append (id ++ trail) ending code
          (NoneOf-append ends_line id trail (All-map id (λ c h. (solid_char c h).1) chars)
            (All-map trail blank_char blank))
          ends)
    ∙ ap take_id (trim_end-append id trail (All-map id (λ c h. (solid_char c h).0) chars) blank)
    ∙ take_id_lem id ((check_runtime_id-Matches id).1 matches) fits

Matches-cons :
    (id : List ℕ)
    → Matches runtime_id_regex id
    → (c : ℕ) × (rest : List ℕ) × (id ≡ c ∷ rest) × (isblank c ≡ false)
Matches-cons id m = go id (Matches-All id m) ((check_runtime_id-Matches id).1 m)
  where
    go :
        (id : List ℕ)
        → All (λ c. InClass c id_char) id
        → check_runtime_id id ≡ true
        → (c : ℕ) × (rest : List ℕ) × (id ≡ c ∷ rest) × (isblank c ≡ false)
    go [] h e = cc (check_runtime_id_nil)
    go (c ∷ rest) (h, _) e = (c, rest, refl, (solid_char c h).0)

parse_id_lem :
    (gap_3 id trail : List ℕ) (ending : ℕ) (code : List ℕ)
    → Each isblank gap_3
    → Matches runtime_id_regex id
    → length id ≤ 63
    → Each isblank trail
    → ends_line ending ≡ true
    → parse_id (skip isblank (gap_3 ++ (id ++ (trail ++ ending ∷ code)))) ≡ runtime_id id
unfolding parse_id
parse_id_lem gap_3 id trail ending code gap matches fits blank ends =
    let (c, rest, e, solid) = Matches-cons id matches in
    let tail : List ℕ = trail ++ ending ∷ code in
    ap (λ i. parse_id (skip isblank (gap_3 ++ (i ++ tail)))) e
    ∙ ap parse_id (skip-append isblank gap_3 c (rest ++ tail) gap solid)
    ∙ ap (λ i. parse_line (read_line (i ++ tail))) (sym e)
    ∙ parse_last id trail ending code matches fits blank ends

Declares-parse :
    (source id : List ℕ) → Declares source id → parse_container_meta source ≡ runtime_id id
unfolding parse_container_meta
Declares-parse source id d =
    let last : List ℕ = d.gap_3 ++ (id ++ (d.trail ++ d.ending ∷ d.code)) in
    let colon : List ℕ = d.gap_2 ++ b':' ∷ last in
    ap parse_container_meta d.text
    ∙ ap parse_hash (
        skip-append isspace d.spaces b'#' (d.gap_1 ++ (container_text ++ colon)) d.spaces_blank
          refl)
    ∙ ap (λ s. parse_container (after_text container_text s))
        (skip-append isblank d.gap_1 b'c' (drop 1 container_text ++ colon) d.gap_1_blank refl)
    ∙ ap parse_container (after_text-append container_text colon)
    ∙ ap parse_colon (skip-append isblank d.gap_2 b':' last d.gap_2_blank refl)
    ∙ parse_id_lem d.gap_3 id d.trail d.ending d.code d.gap_3_blank d.id_matches d.id_fits
        d.trail_blank d.ending_ends

-- `parse_container_meta` returns a runtime id exactly for the sources that start with white space
-- and a line "#container:" with that id, blanks allowed before "container", the colon, the id and the
-- end of the line, where the id matches "^[a-zA-Z0-9][a-zA-Z0-9_.-]*$" and has at most 63 characters,
-- and a line feed or carriage return ends the line.
pub parse_container_meta-Declares :
    (source id : List ℕ) → (parse_container_meta source ≡ runtime_id id) ↔ Declares source id
parse_container_meta-Declares source id = (parse-Declares source, Declares-parse source id)

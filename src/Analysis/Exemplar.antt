-- ===== src/Analysis/Exemplar.antt =====
-- What inflectExemplar of DictionaryLookupInflector.cpp does with the inflection of the exemplar.
use inflection.Prelude.{
  ◌-◌, if◌then◌else◌, ltb, [], ◌∷◌, ◌++◌, length, length-append, take, drop, ◌≡◌, ◌≢◌, refl, arith,
  ap, ap₂, ◌∙◌,
}
use inflection.Prelude.Strings.{U16String}
use inflection.Analysis.DictionaryLookupInflector.{common_prefix, as_exemplar}

-- Two texts with no common start.
abbrev pub Apart : U16String → U16String → Type 0
Apart [] ys = Unit
Apart (x ∷ xs) [] = Unit
Apart (x ∷ xs) (y ∷ ys) = x ≢ y

common_prefix-stem :
    (stem inflected ending : U16String)
    → Apart inflected ending
    → common_prefix (stem ++ inflected) (stem ++ ending) ≡ length stem
unfolding common_prefix
common_prefix-stem [] [] ending h = refl
common_prefix-stem [] (x ∷ xs) [] h = refl
common_prefix-stem [] (x ∷ xs) (y ∷ ys) h = ground (arith, h)
common_prefix-stem (s ∷ stem) inflected ending h =
    ground (arith, common_prefix-stem stem inflected ending h)

drop-stem : (stem rest : U16String) → drop (length stem) (stem ++ rest) ≡ rest
drop-stem [] rest = refl
drop-stem (s ∷ stem) rest = drop-stem stem rest

-- Let an exemplar and its inflection be a stem with two endings that have no common start. The word loses as
-- many units at its end as the ending of the exemplar has and gets the ending of the inflection; a
-- word that is shorter than the ending of the exemplar loses nothing.
pub as_exemplar_lem :
    (word stem ending inflected : U16String)
    → Apart inflected ending
    → as_exemplar word (stem ++ ending) (stem ++ inflected)
      ≡ (if ltb (length word) (length ending)
          then word
          else take (length word - length ending) word)
        ++ inflected
unfolding as_exemplar
as_exemplar_lem word stem ending inflected h =
    let same = common_prefix-stem stem inflected ending h in
    let removed : length (stem ++ ending) - common_prefix (stem ++ inflected) (stem ++ ending)
        ≡ length ending =
      omega (arith, same, length-append stem ending) in
    ap₂ (λ n rest. (if ltb (length word) n then word else take (length word - n) word) ++ rest)
      removed (ap (λ n. drop n (stem ++ inflected)) same ∙ drop-stem stem inflected)

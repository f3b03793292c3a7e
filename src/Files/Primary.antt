-- ===== src/Files/Primary.antt =====
-- The primary files of an entity in a table.
use backend_task_management.Base.{
  ◌≡◌, refl, sym, ap, ◌∙◌, ◌≤◌, String, ◌&&◌, Bool, true, false, List, [], ◌∷◌, keep, length,
  Bool-cases, inl, inr, if◌then◌else◌, non_empty, arith,
}
use backend_task_management.Files.Rows.{File}
use backend_task_management.Files.Service.{is_primary_of, is_text, demote, unset_primary}

-- An entity has at most one primary file.
abbrev pub OnePrimary : List File → Type 0
OnePrimary files =
    (id type : String)
    → non_empty id ≡ true
    → non_empty type ≡ true
    → length (keep (is_primary_of id type) files) ≤ 1

never_primary : (a b : Bool) → a && (b && false) ≡ false
never_primary true true = refl
never_primary true false = refl
never_primary false b = refl

kept-le :
    (b c : Bool) (f g : File) (fs gs : List File)
    → (b ≡ true → c ≡ true)
    → length fs ≤ length gs
    → length (if b then f ∷ fs else fs) ≤ length (if c then g ∷ gs else gs)
kept-le true true f g fs gs h le = omega arith
kept-le true false f g fs gs h le = cc (h refl)
kept-le false true f g fs gs h le = omega arith
kept-le false false f g fs gs h le = le

demote-yes :
    (e t : String) (f : File)
    → is_primary_of e t f ≡ true
    → demote e t f ≡ record f { is_primary = false }
demote-yes e t f y = rw y

demote-no : (e t : String) (f : File) → is_primary_of e t f ≡ false → demote e t f ≡ f
demote-no e t f n = rw n

demoted : (e t : String) (f : File) → is_primary_of e t (demote e t f) ≡ false
demoted e t f = elim (Bool-cases (is_primary_of e t f)) [
  | inl y ↦
      ap (is_primary_of e t) (demote-yes e t f y)
      ∙ never_primary (is_text e f.entity_id) (is_text t f.entity_type)
  | inr n ↦ ap (is_primary_of e t) (demote-no e t f n) ∙ n
]

still_primary :
    (e t id type : String) (f : File)
    → is_primary_of id type (demote e t f) ≡ true
    → is_primary_of id type f ≡ true
still_primary e t id type f h = elim (Bool-cases (is_primary_of e t f)) [
  | inl y ↦
      let never =
        ap (is_primary_of id type) (demote-yes e t f y)
        ∙ never_primary (is_text id f.entity_id) (is_text type f.entity_type) in
      cc
  | inr n ↦ ap (is_primary_of id type) (sym (demote-no e t f n)) ∙ h
]

unset-length :
    (e t id type : String) (files : List File)
    → length (keep (is_primary_of id type) (unset_primary e t files))
      ≤ length (keep (is_primary_of id type) files)
unfolding unset_primary
unset-length e t id type [] = omega arith
unset-length e t id type (f ∷ files) =
    kept-le _ _ _ f _ _ (still_primary e t id type f) (unset-length e t id type files)

pub unset_primary-keep :
    (e t : String) (files : List File) → keep (is_primary_of e t) (unset_primary e t files) ≡ []
unfolding unset_primary
unset_primary-keep e t [] = refl
unset_primary-keep e t (f ∷ files) = rw (demoted e t f) (unset_primary-keep e t files)

pub unset_primary-OnePrimary :
    (e t : String) (files : List File) → OnePrimary files → OnePrimary (unset_primary e t files)
unset_primary-OnePrimary e t files h id type a b =
    let less = unset-length e t id type files in let one = h id type a b in omega arith

pub cons-OnePrimary :
    (f : File) (files : List File)
    → OnePrimary files
    → ((id type : String)
        → non_empty id ≡ true
        → non_empty type ≡ true
        → is_primary_of id type f ≡ true
        → keep (is_primary_of id type) files ≡ [])
    → OnePrimary (f ∷ files)
cons-OnePrimary f files h alone id type a b = elim (Bool-cases (is_primary_of id type f)) [
  | inl y ↦ rw y (rw (alone id type a b y) (omega arith))
  | inr n ↦ rw n (h id type a b)
]

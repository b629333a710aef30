-- ===== src/Migration/Backups.antt =====
-- What the backups of some rows make of rows that differ from these in the encrypted fields alone.
use zero_knowledge_aggregato.Base.{
  ◌<◌, ◌≡◌, refl, sym, ap, ◌∙◌, inl, inr, String, Bool, true, false, Option, none, some, List, [],
  ◌∷◌, map, map_if, count_if, keep, find, str_eq, eq_iff, Bool-cases, arith,
}
use zero_knowledge_aggregato.Prisma.Keyed.{IsUnique}
use zero_knowledge_aggregato.Keys.Crypto.{Text}
use zero_knowledge_aggregato.Connections.{ConnectionRow}
use zero_knowledge_aggregato.Migration.{
  BackupCredential, backup_of, restore, set_credentials, has_id, every_row,
}

-- A row that differs from `r` at most in the encrypted fields.
abbrev pub IsChanged : ConnectionRow → ConnectionRow → Type 0
IsChanged r r' = restore (backup_of r) r' ≡ r

-- Rows that differ from those of the first list at most in the encrypted fields, one by one.
abbrev pub AreChanged : List ConnectionRow → List ConnectionRow → Type 0
AreChanged [] [] = Unit {0}
AreChanged [] (r' ∷ rs') = ⊥
AreChanged (r ∷ rs) [] = ⊥
AreChanged (r ∷ rs) (r' ∷ rs') = IsChanged r r' × AreChanged rs rs'

pub AreChanged-refl : (rs : List ConnectionRow) → AreChanged rs rs
AreChanged-refl [] = tt
AreChanged-refl (r ∷ rs) = (refl, AreChanged-refl rs)

-- Setting encrypted fields keeps that.
pub AreChanged-map_if :
    (p : ConnectionRow → Bool) (k t : Text) (o : Option Text) (rs rs' : List ConnectionRow)
    → AreChanged rs rs'
    → AreChanged rs (map_if p (set_credentials k t o) rs')
AreChanged-map_if p k t o [] [] h = tt
AreChanged-map_if p k t o [] (r' ∷ rs') h = h
AreChanged-map_if p k t o (r ∷ rs) [] h = h
AreChanged-map_if p k t o (r ∷ rs) (r' ∷ rs') h = elim (Bool-cases (p r')) [
  | inl e ↦ (rw e (h.0), AreChanged-map_if p k t o rs rs' h.1)
  | inr e ↦ (rw e (h.0), AreChanged-map_if p k t o rs rs' h.1)
]

-- What all backups make of the rows.
abbrev pub restored : List BackupCredential → List ConnectionRow → List ConnectionRow
restored [] rs = rs
restored (b ∷ bs) rs = restored bs (map_if (has_id b.id) (restore b) rs)

has_id-sym : (j k : String) → str_eq j k ≡ false → str_eq k j ≡ false
has_id-sym j k e = elim (Bool-cases (str_eq k j)) [
  | inl h ↦ let same : k ≡ j = (eq_iff k j).0 h in cc ((eq_iff j k).1 (sym same))
  | inr h ↦ h
]

find-changed :
    (k : String) (rs rs' : List ConnectionRow)
    → AreChanged rs rs'
    → find (has_id k) rs ≡ none
    → find (has_id k) rs' ≡ none
find-changed k [] [] h e = refl
find-changed k [] (r' ∷ rs') h e = elim h [ ]
find-changed k (r ∷ rs) [] h e = elim h [ ]
find-changed k (r ∷ rs) (r' ∷ rs') h e =
    let same : r'.id ≡ r.id = ap (λ (x : ConnectionRow). x.id) h.0 in
    ground (arith, find-changed k rs rs' h.1, e, same)

map_if-absent :
    (k : String) (f : ConnectionRow → ConnectionRow) (rs : List ConnectionRow)
    → find (has_id k) rs ≡ none
    → map_if (has_id k) f rs ≡ rs
map_if-absent k f [] e = refl
map_if-absent k f (r ∷ rs) e = ground (arith, map_if-absent k f rs, e)

restored-head :
    (r : ConnectionRow) (l rs : List ConnectionRow)
    → find (has_id r.id) l ≡ none
    → restored (map backup_of l) (r ∷ rs) ≡ r ∷ restored (map backup_of l) rs
restored-head r [] rs e = refl
restored-head r (x ∷ l) rs e = elim (Bool-cases (str_eq x.id r.id)) [
  | inl h ↦ let never : some x ≡ none = sym (rw h refl) ∙ e in cc
  | inr h ↦
      let kept : map_if (has_id x.id) (restore (backup_of x)) (r ∷ rs)
          ≡ r ∷ map_if (has_id x.id) (restore (backup_of x)) rs =
        rw (has_id-sym x.id r.id h) refl in
      ap (restored (map backup_of l)) kept
      ∙ restored-head r l (map_if (has_id x.id) (restore (backup_of x)) rs) (sym (rw h refl) ∙ e)
]

-- With distinct ids, the backups of the rows bring the changed rows back.
pub restored-changed :
    (rs rs' : List ConnectionRow)
    → IsUnique (λ (r : ConnectionRow). r.id) str_eq eq_iff rs
    → AreChanged rs rs'
    → restored (map backup_of rs) rs' ≡ rs
restored-changed [] [] u h = refl
restored-changed [] (r' ∷ rs') u h = elim h [ ]
restored-changed (r ∷ rs) [] u h = elim h [ ]
restored-changed (r ∷ rs) (r' ∷ rs') u h =
    let here : str_eq r'.id r.id ≡ true =
      (eq_iff r'.id r.id).1 (ap (λ (x : ConnectionRow). x.id) h.0) in
    let first : map_if (has_id r.id) (restore (backup_of r)) (r' ∷ rs') ≡ r ∷ rs' =
      rw (here, map_if-absent r.id (restore (backup_of r)) rs' (find-changed r.id rs rs' h.1 u.0))
        (ap (λ x. x ∷ rs') h.0) in
    ap (restored (map backup_of rs)) first
    ∙ restored-head r rs rs' u.0
    ∙ ap (λ l. r ∷ l) (restored-changed rs rs' u.1 h.1)

-- Every row of the first list is there by its id.
abbrev pub ArePresent : List ConnectionRow → List ConnectionRow → Type 0
ArePresent rs' [] = Unit {0}
ArePresent rs' (r ∷ rs) = (0 < count_if (has_id r.id) rs') × ArePresent rs' rs

ArePresent-cons :
    (x : ConnectionRow) (rs' rs : List ConnectionRow) → ArePresent rs' rs → ArePresent (x ∷ rs') rs
ArePresent-cons x rs' [] h = tt
ArePresent-cons x rs' (r ∷ rs) h = (ground (arith, h.0), ArePresent-cons x rs' rs h.1)

pub changed-ArePresent : (rs rs' : List ConnectionRow) → AreChanged rs rs' → ArePresent rs' rs
changed-ArePresent [] rs' h = tt
changed-ArePresent (r ∷ rs) [] h = elim h [ ]
changed-ArePresent (r ∷ rs) (r' ∷ rs') h =
    let here : str_eq r'.id r.id ≡ true =
      (eq_iff r'.id r.id).1 (ap (λ (x : ConnectionRow). x.id) h.0) in
    (rw here (omega arith), ArePresent-cons r' rs' rs (changed-ArePresent rs rs' h.1))

count_if-map_if :
    (k : String) (p : ConnectionRow → Bool) (b : BackupCredential) (rs : List ConnectionRow)
    → count_if (has_id k) (map_if p (restore b) rs) ≡ count_if (has_id k) rs
count_if-map_if k p b [] = refl
count_if-map_if k p b (r ∷ rs) = ground (arith, count_if-map_if k p b rs)

pub ArePresent-map_if :
    (p : ConnectionRow → Bool) (b : BackupCredential) (rs' rs : List ConnectionRow)
    → ArePresent rs' rs
    → ArePresent (map_if p (restore b) rs') rs
ArePresent-map_if p b rs' [] h = tt
ArePresent-map_if p b rs' (r ∷ rs) h =
    (rw (count_if-map_if r.id p b rs') (h.0), ArePresent-map_if p b rs' rs h.1)

pub keep-all : (rs : List ConnectionRow) → keep every_row rs ≡ rs
keep-all [] = refl
keep-all (r ∷ rs) = ap (λ l. r ∷ l) (keep-all rs)

-- ===== src/Api/Models/Listed.antt =====
-- What `listModels` shows.
use opengnk.Prelude.{
  ◌<◌, false, List, [], ◌∷◌, Option, none, some, ◌≡◌, refl, ◌⊎◌, inl, inr, arith, leb, length,
}
use opengnk.Text.{Bytes, codes}
use opengnk.Api.Models.{ModelEntry, id_of, entry, add_entry, entries_of, or_default, shown}

-- The raw model has this id, which is not empty.
abbrev pub HasId : Bytes → Bytes → Type 0
HasId id raw = (id_of raw ≡ some id) × (0 < length id)

-- The entries of the models with an id, in their order.
pub data AreEntries : List Bytes → List ModelEntry → Type 0 where
  no_models : AreEntries [] []
  listed :
      {raw id : Bytes} {raws : List Bytes} {es : List ModelEntry}
      → HasId id raw
      → AreEntries raws es
      → AreEntries (raw ∷ raws) (entry id ∷ es)
  skipped :
      {raw : Bytes} {raws : List Bytes} {es : List ModelEntry}
      → (id_of raw ≡ none) ⊎ (id_of raw ≡ some [])
      → AreEntries raws es
      → AreEntries (raw ∷ raws) es

add_entry-AreEntries :
    (raw : Bytes) (raws : List Bytes) (es : List ModelEntry) (id : Option Bytes)
    → id_of raw ≡ id
    → AreEntries raws es
    → AreEntries (raw ∷ raws) (add_entry id es)
unfolding add_entry
add_entry-AreEntries raw raws es none e h = skipped (inl e) h
add_entry-AreEntries raw raws es (some []) e h = skipped (inr e) h
add_entry-AreEntries raw raws es (some (c ∷ s)) e h =
    let long : leb (length (c ∷ s)) 0 ≡ false = ground arith in rw long (listed (e, omega arith) h)

entries_of-AreEntries : (raws : List Bytes) → AreEntries raws (entries_of raws)
unfolding entries_of
entries_of-AreEntries [] = no_models
entries_of-AreEntries (raw ∷ raws) =
    add_entry-AreEntries raw raws (entries_of raws) (id_of raw) refl (entries_of-AreEntries raws)

-- `listModels` shows the models with an id that is not empty, one entry for each of them and in
-- their order, or, where there are none, the one entry `gonka-model`.
pub shown-AreEntries :
    (raws : List Bytes)
    → (AreEntries raws (shown raws) × (0 < length (shown raws)))
      ⊎ (AreEntries raws [] × (shown raws ≡ entry (codes "gonka-model") ∷ []))
unfolding shown
shown-AreEntries raws = by_entries (entries_of raws) (entries_of-AreEntries raws)
  where
    by_entries :
        (es : List ModelEntry)
        → AreEntries raws es
        → (AreEntries raws (or_default es) × (0 < length (or_default es)))
          ⊎ (AreEntries raws [] × (or_default es ≡ entry (codes "gonka-model") ∷ []))
    by_entries [] h = unfold or_default in inr (h, refl)
    by_entries (e ∷ es) h = unfold or_default in inl (h, omega arith)

-- ===== src/LlmClassifier/Occurrences/Scan.antt =====
-- The inner loop of `Classify` meets every occurrence.
use opengnk.Prelude.{
  ℕ, zero, suc, ◌+◌, ◌-◌, ◌≤◌, ◌<◌, Bool, true, false, List, [], ◌∷◌, some, ◌≡◌, refl, sym, ◌∙◌, ap,
  ◌⊎◌, inl, inr, All, Any, arith, Bool-cases, Option-cases, ltb, if◌then◌else◌, length, drop,
  length-drop,
}
use opengnk.Text.{Bytes, starts_with, slice}
use opengnk.Text.Trim.{index, index_finds, index_first, index_none, IsNotBefore}
use opengnk.Sanitize.Span.{Span}
use opengnk.LlmClassifier.{is_inside_token, span_at, find_from, find_value}
use opengnk.LlmClassifier.Occurrences.{
  IsOccurrence, IsMet, IsScan, drop-drop, slice_copy, is_inside_token_total, find_from-none,
  find_from-some,
}

not_in_rest :
    (text val : Bytes) (start n a : ℕ)
    → IsNotBefore val (drop start text) n
    → start ≤ a
    → a < start + n
    → starts_with val (drop a text) ≡ false
not_in_rest text val start n a h low lt =
    let back : start + (a - start) ≡ a = omega arith in
    ap (λ k. starts_with val (drop k text)) (sym back)
    ∙ ap (starts_with val) (sym (drop-drop (a - start) start text))
    ∙ h (a - start) (omega arith)

IsMet-earlier :
    (text val : Bytes) (sps more : List Span) (start stop a : ℕ)
    → start ≤ stop
    → ((sp : Span) → Any (λ s. s ≡ sp) sps → Any (λ s. s ≡ sp) more)
    → IsMet text val sps stop a
    → IsMet text val more start a
IsMet-earlier text val sps more start stop a h keep m = record {
  x = m.x;
  low = omega (arith, m.low);
  before = m.before;
  overlap = m.overlap;
  copy = m.copy;
  what = elim m.what [
    | inl reported ↦ inl (keep (span_at m.x (m.x + length val)) reported)
    | inr passed ↦ inr passed
  ];
}

-- What the loop adds for the match at `x`.
abbrev add : Bool → Bytes → ℕ → List Span → List Span
add inside val x later = if inside then later else span_at x (x + length val) ∷ later

add_keeps :
    (inside : Bool) (val : Bytes) (x : ℕ) (later : List Span) (sp : Span)
    → Any (λ s. s ≡ sp) later
    → Any (λ s. s ≡ sp) (add inside val x later)
add_keeps true val x later sp h = h
add_keeps false val x later sp h = inr h

add_sound :
    (text val : Bytes) (inside : Bool) (x : ℕ) (later : List Span)
    → 0 < length val
    → slice text x (x + length val) ≡ some val
    → is_inside_token text x (x + length val) ≡ some inside
    → All (IsOccurrence text val) later
    → All (IsOccurrence text val) (add inside val x later)
add_sound text val true x later pos copy e h = h
add_sound text val false x later pos copy e h =
    (record { start = x; place = refl; nonempty = pos; copy = copy; free = e }, h)

add_meets :
    (text val : Bytes) (inside : Bool) (x : ℕ) (later : List Span)
    → is_inside_token text x (x + length val) ≡ some inside
    → Any (λ sp. sp ≡ span_at x (x + length val)) (add inside val x later)
      ⊎ (is_inside_token text x (x + length val) ≡ some true)
add_meets text val true x later e = inr e
add_meets text val false x later e = inl (inl refl)

IsScan-step :
    (text val : Bytes) (start idx : ℕ) (inside : Bool) (later : List Span)
    → 0 < length val
    → index val (drop start text) ≡ some idx
    → slice text (start + idx) (start + idx + length val) ≡ some val
    → is_inside_token text (start + idx) (start + idx + length val) ≡ some inside
    → IsScan text val (start + idx + length val) later
    → IsScan text val start (add inside val (start + idx) later)
IsScan-step text val start idx inside later pos found copy e scan =
    let x : ℕ = start + idx in
    record {
      sound = add_sound text val inside x later pos copy e scan.sound;
      complete = λ a low lt there. elim (Bool-cases (ltb a x)) [
        | inl early ↦
            let no =
              not_in_rest text val start idx a (index_first val (drop start text) idx found) low
                (ground arith) in
            absurd (ground (arith, no, there))
        | inr late ↦ elim (Bool-cases (ltb a (x + length val))) [
          | inl shared ↦ record {
            x = x;
            low = omega arith;
            before = ground arith;
            overlap = ground arith;
            copy = copy;
            what = add_meets text val inside x later e;
          }
          | inr behind ↦
              IsMet-earlier text val later (add inside val x later) start (x + length val) a
                (omega arith) (add_keeps inside val x later)
                (scan.complete a (ground arith) lt there)
        ]
      ];
    }

find_from-IsScan :
    (fuel : ℕ) (text val : Bytes) (start : ℕ)
    → 0 < length val
    → start ≤ length text
    → length text < start + fuel
    → (sps : List Span) × (find_from fuel text val start ≡ some sps) × IsScan text val start sps
find_from-IsScan zero text val start pos h enough = absurd (omega arith)
find_from-IsScan (suc fuel) text val start pos h enough =
    let size = length-drop start text in
    elim (Option-cases (index val (drop start text))) [
      | inl e ↦ (
        [],
        find_from-none fuel text val start h e,
        record {
          sound = tt;
          complete = λ a low lt there.
              let no =
                not_in_rest text val start (length (drop start text)) a
                  (index_none val (drop start text) e) low (omega arith) in
              absurd (ground (arith, no, there));
        },
      )
      | inr (idx, e) ↦
          let (there, inside) = index_finds val (drop start text) idx e in
          let (t, et) =
            is_inside_token_total text (start + idx) (start + idx + length val) (omega arith) in
          let copy =
            slice_copy text val (start + idx) (omega arith)
              (ap (starts_with val) (sym (drop-drop idx start text)) ∙ there) in
          let (later, el, scan) =
            find_from-IsScan fuel text val (start + idx + length val) pos (omega arith)
              (omega arith) in
          (
            add t val (start + idx) later,
            find_from-some fuel text val start idx t later h e et el,
            IsScan-step text val start idx t later pos e copy et scan,
          )
    ]

-- The inner loop of `Classify` ends without a panic for every value that is not empty. Each span it
-- reports covers a copy of the value with a word boundary at either end; and each copy of the value
-- in the text shares a byte with a copy that is reported, or with one that was passed over since a
-- word goes on beyond one of its ends.
pub find_value-IsScan :
    (text val : Bytes)
    → 0 < length val
    → (sps : List Span) × (find_value text val ≡ some sps) × IsScan text val 0 sps
unfolding find_value
find_value-IsScan text val pos =
    find_from-IsScan (length text + 1) text val 0 pos (omega arith) (omega arith)

-- ===== src/Wire/Writer.antt =====
-- internal/wire/plain.go: `writeFull`, over a connection that may take less than it is given.
use go_aioesphomeapi.Base.{
  ℕ, ◌≤◌, ◌<◌, ◌≡◌, refl, sym, ap, ◌∙◌, inl, inr, List, [], ◌∷◌, ◌++◌, append_assoc, arith, ◌==◌,
  if◌then◌else◌, Bytes, length, take, drop, take-append-drop, length-drop, All, Bool-cases,
}
use go_aioesphomeapi.Wire.Io.{IoError, unexpected_eof}

-- What one call of `writer.Write` does: it takes `n` bytes, or it takes `n` bytes, maybe none, and fails.
pub data Outcome : Type 0 where
  wrote : ℕ → Outcome
  failed : (written : ℕ) → IoError → Outcome

-- How `writeFull` ends. `waiting` is no Go value: the schedule has no answer to the next call.
pub data Written : Type 0 where
  done : Written
  stopped : IoError → Written
  waiting : Written

-- The bytes that went out, and the result. The schedule answers the calls in turn.
pub write_full : List Outcome → Bytes → Bytes × Written
write_full ws [] = ([], done)
write_full [] (d ∷ ds) = ([], waiting)
write_full (failed n e ∷ ws) (d ∷ ds) = (take n (d ∷ ds), stopped e)
write_full (wrote n ∷ ws) (d ∷ ds) =
    let (sent, end) = write_full ws (drop n (d ∷ ds)) in
    if n == 0 then ([], stopped unexpected_eof) else (take n (d ∷ ds) ++ sent, end)

-- Some call makes progress.
abbrev pub IsProgress : Outcome → Type 0
IsProgress (wrote n) = 0 < n
IsProgress (failed n e) = ⊥

pub write_full_progress :
    (ws : List Outcome) (ds : Bytes)
    → All IsProgress ws
    → length ds ≤ length ws
    → write_full ws ds ≡ (ds, done)
unfolding write_full
write_full_progress ws [] h k = refl
write_full_progress [] (d ∷ ds) h k = absurd (omega arith)
write_full_progress (failed n e ∷ ws) (d ∷ ds) h k = absurd h.0
write_full_progress (wrote n ∷ ws) (d ∷ ds) h k = ground (
  arith,
  length-drop n (d ∷ ds),
  write_full_progress ws (drop n (d ∷ ds)) h.1,
  take-append-drop n (d ∷ ds),
)

-- On every schedule of the connection's answers, writes that take some bytes and fail included,
-- the bytes that went out are a front part of the data, and they are all of it when writeFull
-- reports no error.
pub write_full_prefix :
    (ws : List Outcome) (ds : Bytes)
    → (rest : Bytes) × (ds ≡ (write_full ws ds).0 ++ rest)
      × ((write_full ws ds).1 ≡ done → rest ≡ [])
unfolding write_full
write_full_prefix ws [] = ([], refl, λ _. refl)
write_full_prefix [] (d ∷ ds) = (d ∷ ds, refl, λ e. cc)
write_full_prefix (failed n e ∷ ws) (d ∷ ds) =
    (drop n (d ∷ ds), sym (take-append-drop n (d ∷ ds)), λ e. cc)
write_full_prefix (wrote n ∷ ws) (d ∷ ds) = elim (Bool-cases (n == 0)) [
  | inl z ↦ rw z (d ∷ ds, refl, λ e. cc)
  | inr p ↦
      let (rest, split, whole) = write_full_prefix ws (drop n (d ∷ ds)) in
      rw p (
        rest,
        sym (take-append-drop n (d ∷ ds))
            ∙ ap (◌++◌ (take n (d ∷ ds))) split
            ∙ sym (append_assoc (take n (d ∷ ds)) (write_full ws (drop n (d ∷ ds))).0 rest),
        whole,
      )
]

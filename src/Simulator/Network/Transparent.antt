-- ===== src/Simulator/Network/Transparent.antt =====
-- simulator/network.go: the bytes of a frame under each shape.
use mathlib.Core.Path.{subst}
use go_aioesphomeapi.Base.{
  ◌≡◌, refl, ap, inl, inr, List, [], ◌∷◌, ◌++◌, append-nil, append_assoc, arith, ◌==◌, Bool-cases,
  take, drop, take-append-drop, Bytes, sym, ◌≢◌, ◌⊎◌, ◌∙◌,
}
use go_aioesphomeapi.Simulator.Network.{
  NetworkFrame, NetworkOutcome, Progress, write_all, concat, singles, chunks_of, wrote, failed,
  gone, complete, WriteEnd, write_chunks, write_network_frame, aborted, waiting,
}

concat-singles : (bs : Bytes) → concat (singles bs) ≡ bs
unfolding concat singles
concat-singles [] = refl
concat-singles (b ∷ bs) = ap (◌∷◌ b) (concat-singles bs)

concat-chunks_of : (frame : NetworkFrame) → concat (chunks_of frame) ≡ concat frame.segments
unfolding chunks_of
concat-chunks_of frame =
    let one : concat (concat frame.segments ∷ []) ≡ concat frame.segments =
      unfold concat in append-nil (concat frame.segments) in
    ground (arith, one, concat-singles (concat frame.segments))

-- The bytes that went out are a front part of the data, and all of it when the write is complete.
pub record IsFront (payload : Bytes) (p : Progress) : Type 0 where
  pub missing : Bytes
  pub front : p.out ++ missing ≡ payload
  pub whole : p.end ≡ complete → missing ≡ []

write_all-IsFront : (ws : List NetworkOutcome) (bs : Bytes) → IsFront bs (write_all ws bs)
unfolding write_all
write_all-IsFront ws [] = record { missing = []; front = refl; whole = λ e. refl }
write_all-IsFront [] (b ∷ bs) = record {
  missing = b ∷ bs;
  front = refl;
  whole = λ e. absurd (ground arith);
}
write_all-IsFront (gone ∷ ws) (b ∷ bs) = record {
  missing = b ∷ bs;
  front = refl;
  whole = λ e. absurd (ground arith);
}
write_all-IsFront (failed n x ∷ ws) (b ∷ bs) = record {
  missing = drop n (b ∷ bs);
  front = take-append-drop n (b ∷ bs);
  whole = λ e. absurd (ground arith);
}
write_all-IsFront (wrote n ∷ ws) (b ∷ bs) = elim (Bool-cases (n == 0)) [
  | inl stuck ↦ record {
    missing = b ∷ bs;
    front = ground (arith, stuck);
    whole = λ e. absurd (ground (arith, stuck));
  }
  | inr moved ↦
      let rest = write_all-IsFront ws (drop n (b ∷ bs)) in
      record {
        missing = rest.missing;
        front = ground (
          arith,
          moved,
          append_assoc (take n (b ∷ bs)) (write_all ws (drop n (b ∷ bs))).out rest.missing,
          rest.front,
          take-append-drop n (b ∷ bs),
        );
        whole = λ e. rest.whole (ground (arith, moved));
      }
]

WriteEnd-cases : (e : WriteEnd) → (e ≡ complete) ⊎ (e ≢ complete)
WriteEnd-cases complete = inl refl
WriteEnd-cases (aborted x) = inr (λ e. cc)
WriteEnd-cases waiting = inr (λ e. cc)

write_chunks-complete :
    (ws : List NetworkOutcome) (chunk : Bytes) (chunks : List Bytes)
    → (write_all ws chunk).end ≡ complete
    → write_chunks ws (chunk ∷ chunks) ≡ record (write_chunks (write_all ws chunk).left chunks) {
      out = (write_all ws chunk).out ++ (write_chunks (write_all ws chunk).left chunks).out;
    }
unfolding write_chunks
write_chunks-complete ws chunk chunks e = ground (arith, e)

write_chunks-cut :
    (ws : List NetworkOutcome) (chunk : Bytes) (chunks : List Bytes)
    → (write_all ws chunk).end ≢ complete
    → write_chunks ws (chunk ∷ chunks) ≡ write_all ws chunk
unfolding write_chunks
write_chunks-cut ws chunk chunks e = ground (arith, e)

concat-cons : (x : Bytes) (xs : List Bytes) → concat (x ∷ xs) ≡ x ++ concat xs
unfolding concat
concat-cons x xs = refl

write_chunks-IsFront :
    (ws : List NetworkOutcome) (chunks : List Bytes)
    → IsFront (concat chunks) (write_chunks ws chunks)
write_chunks-IsFront ws [] =
    unfold write_chunks concat in record { missing = []; front = refl; whole = λ e. refl }
write_chunks-IsFront ws (chunk ∷ chunks) =
    let one = write_all-IsFront ws chunk in
    elim (WriteEnd-cases (write_all ws chunk).end) [
      | inl e ↦
          let rest = write_chunks-IsFront (write_all ws chunk).left chunks in
          let sent : (write_all ws chunk).out ≡ chunk =
            sym (append-nil (write_all ws chunk).out)
            ∙ ap (◌++◌ (write_all ws chunk).out) (sym (one.whole e))
            ∙ one.front in
          subst (IsFront (concat (chunk ∷ chunks))) (sym (write_chunks-complete ws chunk chunks e))
            (record {
              missing = rest.missing;
              front =
                  append_assoc (write_all ws chunk).out _ rest.missing
                  ∙ ap (◌++◌ (write_all ws chunk).out) rest.front
                  ∙ ap (λ (bs : Bytes). bs ++ concat chunks) sent
                  ∙ sym (concat-cons chunk chunks);
              whole = rest.whole;
            })
      | inr e ↦
          subst (IsFront (concat (chunk ∷ chunks))) (sym (write_chunks-cut ws chunk chunks e))
            (record {
              missing = one.missing ++ concat chunks;
              front =
                  sym (append_assoc (write_all ws chunk).out one.missing (concat chunks))
                  ∙ ap (λ (bs : Bytes). bs ++ concat chunks) one.front
                  ∙ sym (concat-cons chunk chunks);
              whole = λ k. absurd (e k);
            })
    ]

-- However a frame is fragmented or coalesced, and whatever the connection answers, also when a
-- write takes some bytes and fails, the bytes that went out are a front part of the frame's
-- segments joined, and all of them when the write is complete.
pub write_network_frame-IsFront :
    (ws : List NetworkOutcome) (frame : NetworkFrame)
    → IsFront (concat frame.segments) (write_network_frame ws frame)
unfolding write_network_frame
write_network_frame-IsFront ws frame =
    subst (λ (bs : Bytes). IsFront bs (write_chunks ws (chunks_of frame))) (concat-chunks_of frame)
      (write_chunks-IsFront ws (chunks_of frame))

-- ===== src/Noise/Buffers.antt =====
-- The loop of src/noise.rs that fills a buffer: it loses no byte and adds none.
use rust_ssh.Prelude.{
  ℕ, suc, ◌+◌, ◌-◌, ◌≤◌, ◌<◌, ◌≡◌, refl, ◌∙◌, subst, List, [], ◌∷◌, ◌++◌, length, take, drop, arith,
  append_assoc, take-append, take-append-drop, length-append, length-take, length-drop,
}
use rust_ssh.Noise.{Arrival, nothing_yet, arrives, breaks}
use rust_ssh.Noise.Read.{Filled, full, at_eof, put_at, fill, arrived}

pub length-put_at :
    (n : ℕ) (bs buf : List ℕ) → n + length bs ≤ length buf → length (put_at n bs buf) ≡ length buf
unfolding put_at
length-put_at n bs buf h = omega (
  arith,
  length-append (take n buf) (bs ++ drop (n + length bs) buf),
  length-append bs (drop (n + length bs) buf),
  length-take n buf (omega arith),
  length-drop (n + length bs) buf,
)

pub take-put_at :
    (n : ℕ) (bs buf : List ℕ)
    → n + length bs ≤ length buf
    → take (n + length bs) (put_at n bs buf) ≡ take n buf ++ bs
unfolding put_at
take-put_at n bs buf h =
    subst (λ k. take k (put_at n bs buf) ≡ take n buf ++ bs) size
      (rw (← append_assoc (take n buf) bs (drop (n + length bs) buf))
        (take-append (take n buf ++ bs) (drop (n + length bs) buf)))
  where
    size : length (take n buf ++ bs) ≡ n + length bs
    size = omega (arith, length-append (take n buf) bs, length-take n buf (omega arith))

-- What a run of the loop over `buf`, filled up to `n`, leaves.
pub record Fills (buf : List ℕ) (n : ℕ) (ins : List Arrival) (f : Filled) : Type 0 where
  pub size : length f.buf ≡ length buf
  pub within : f.count ≤ length buf
  pub conserved : take f.count f.buf ++ arrived f.left ≡ take n buf ++ arrived ins
  pub on_full : f.outcome ≡ full → f.count ≡ length buf
  pub on_eof : f.outcome ≡ at_eof → (arrived f.left ≡ []) × (f.count < length buf)

pub arrived-arrives :
    (bs : List ℕ) (r : List Arrival) → 0 < length bs → arrived (arrives bs ∷ r) ≡ bs ++ arrived r
arrived-arrives [] r h = absurd (omega arith)
arrived-arrives (b ∷ bs) r h = refl

-- A chunk that fits is written, and the loop goes on from what it leaves.
fill_whole :
    (buf : List ℕ) (n : ℕ) (bs : List ℕ) (r : List Arrival) (f : Filled)
    → n + length bs ≤ length buf
    → 0 < length bs
    → Fills (put_at n bs buf) (n + length bs) r f
    → Fills buf n (arrives bs ∷ r) f
fill_whole buf n bs r f h some_bytes v = record {
  size = v.size ∙ length-put_at n bs buf h;
  within = omega (arith, v.within, length-put_at n bs buf h);
  conserved =
      v.conserved
      ∙ rw (take-put_at n bs buf h, arrived-arrives bs r some_bytes)
          (append_assoc (take n buf) bs (arrived r));
  on_full = λ e. v.on_full e ∙ length-put_at n bs buf h;
  on_eof = λ e. ((v.on_eof e).0, omega (arith, (v.on_eof e).1, length-put_at n bs buf h));
}

-- A chunk that does not fit fills the buffer, and its rest stays.
fill_cut :
    (buf : List ℕ) (n : ℕ) (bs : List ℕ) (r : List Arrival)
    → n ≤ length buf
    → length buf - n < length bs
    → Fills buf n (arrives bs ∷ r) (record {
      outcome = full;
      buf = put_at n (take (length buf - n) bs) buf;
      count = n + (length buf - n);
      left = arrives (drop (length buf - n) bs) ∷ r;
    })
fill_cut buf n bs r h more =
    let room = length buf - n in
    let fits : length (take room bs) ≡ room = length-take room bs (omega arith) in
    let room_fits : n + length (take room bs) ≤ length buf = omega arith in
    record {
      size = length-put_at n (take room bs) buf room_fits;
      within = omega arith;
      conserved = rw (
        subst (λ k. take (n + k) (put_at n (take room bs) buf) ≡ take n buf ++ take room bs) fits
            (take-put_at n (take room bs) buf room_fits),
        arrived-arrives (drop room bs) r (omega (arith, length-drop room bs)),
        arrived-arrives bs r (omega arith),
        append_assoc (take n buf) (take room bs) (drop room bs ++ arrived r),
        ← append_assoc (take room bs) (drop room bs) (arrived r),
        take-append-drop room bs,
      );
      on_full = λ e. omega arith;
      on_eof = λ e. cc;
    }

pub fill-Fills :
    (buf : List ℕ) (n : ℕ) (ins : List Arrival) → n ≤ length buf → Fills buf n ins (fill buf n ins)
unfolding fill
fill-Fills buf n [] h = ground arith
fill-Fills buf n (nothing_yet ∷ r) h = ground arith
fill-Fills buf n (breaks ∷ r) h = ground arith
fill-Fills buf n (arrives [] ∷ r) h = ground arith
fill-Fills buf n (arrives (b ∷ bs) ∷ r) h = ground (
  arith,
  fill_whole buf n (b ∷ bs) r (fill (put_at n (b ∷ bs) buf) (n + suc (length bs)) r),
  fill_cut buf n (b ∷ bs) r,
  fill-Fills (put_at n (b ∷ bs) buf) (n + suc (length bs)) r,
  length-put_at n (b ∷ bs) buf,
)

-- A buffer that is full already is left alone.
pub fill_full :
    (buf : List ℕ) (n : ℕ) (ins : List Arrival)
    → n ≡ length buf
    → fill buf n ins ≡ record { outcome = full; buf = buf; count = n; left = ins }
unfolding fill
fill_full buf n [] h = ground arith
fill_full buf n (nothing_yet ∷ r) h = ground arith
fill_full buf n (breaks ∷ r) h = ground arith
fill_full buf n (arrives bs ∷ r) h = ground arith

-- ===== src/Noise/Seal.antt =====
-- The wire that src/noise.rs makes of a list of plaintext chunks, and that it decodes to them.
use rust_ssh.Prelude.{
  ℕ, ◌+◌, ◌≤◌, ◌≡◌, refl, ap, sym, ◌∙◌, List, [], ◌∷◌, ◌++◌, Option, none, some, length, arith, All,
  append_assoc, append-nil, from_be_bytes, to_be_bytes, from_be_bytes-to_be_bytes,
  length-to_be_bytes,
}
use rust_ssh.Noise.{Transport, noise_tag_size, max_plaintext_chunk}
use rust_ssh.Noise.Write.{frame}
use rust_ssh.Noise.Decode.{
  ends, clean, after, after-append, decoded, decoded-nil, decoded_head, decode_frame_open,
}

abbrev pub concat : List (List ℕ) → List ℕ
concat [] = []
concat (p ∷ ps) = p ++ concat ps

-- What `snow` documents of two transports in step: a message that fits a Noise packet is sealed into
-- 16 more bytes, the other side opens it to the same message, and the two stay in step.
pub record IsChannel {S : Type 0} (T : Transport S) (InStep : S → S → Type 0) : Type 0 where
  pub seals :
      (t u : S) (p : List ℕ)
      → InStep t u
      → length p ≤ max_plaintext_chunk
      → (c : List ℕ) × (t' : S) × (u' : S) × (T.write_message t p ≡ some (c, t'))
        × (length c ≡ length p + noise_tag_size)
        × (T.read_message u c ≡ some (p, u'))
        × InStep t' u'

module _ {S : Type 0} (T : Transport S) where
  infixl 5 ◌>>=◌
  abbrev ◌>>=◌ : {A B : Type 0} → Option A → (A → Option B) → Option B
  none >>= f = none
  some a >>= f = f a

  -- The bytes of one frame for each chunk, and the transport after them.
  unfoldable pub seal : S → List (List ℕ) → Option (List ℕ × S)
  seal t [] = some ([], t)
  seal t (p ∷ ps) = do
    (c, t') ← T.write_message t p
    (w, t'') ← seal t' ps
    some (frame c ++ w, t'')

  seal_cons :
      (t : S) (q : List ℕ) (qs : List (List ℕ)) (c w : List ℕ) (t' t'' : S)
      → T.write_message t q ≡ some (c, t')
      → seal t' qs ≡ some (w, t'')
      → seal t (q ∷ qs) ≡ some (frame c ++ w, t'')
  unfolding seal
  seal_cons t q qs c w t' t'' e k = rw (e, k)

  -- The parts of a sealed list.
  seal_uncons :
      (t : S) (q : List ℕ) (qs : List (List ℕ)) (w : List ℕ) (t'' : S)
      → seal t (q ∷ qs) ≡ some (w, t'')
      → (c : List ℕ) × (t' : S) × (v : List ℕ) × (T.write_message t q ≡ some (c, t'))
        × (seal t' qs ≡ some (v, t''))
        × (w ≡ frame c ++ v)
  unfolding seal
  seal_uncons t q qs w t'' e = go (T.write_message t q) refl e
    where
      tail : List ℕ → S → (m : Option (List ℕ × S)) → Option (List ℕ × S)
      tail c t' m = m >>= λ (v, u). some (frame c ++ v, u)

      sealed :
          (c : List ℕ) (t' : S)
          → T.write_message t q ≡ some (c, t')
          → (m : Option (List ℕ × S)) → seal t' qs ≡ m
          → tail c t' m ≡ some (w, t'')
          → (c : List ℕ) × (t' : S) × (v : List ℕ) × (T.write_message t q ≡ some (c, t'))
            × (seal t' qs ≡ some (v, t''))
            × (w ≡ frame c ++ v)
      sealed c t' h none k l = cc
      sealed c t' h (some (v, u)) k l = (c, t', v, h, cc, cc)

      go :
          (o : Option (List ℕ × S))
          → T.write_message t q ≡ o
          → (o >>= λ (c, t'). tail c t' (seal t' qs)) ≡ some (w, t'')
          → (c : List ℕ) × (t' : S) × (v : List ℕ) × (T.write_message t q ≡ some (c, t'))
            × (seal t' qs ≡ some (v, t''))
            × (w ≡ frame c ++ v)
      go none h l = cc
      go (some (c, t')) h l = sealed c t' h (seal t' qs) refl l

  pub seal-append :
      (t : S) (ps : List (List ℕ)) (p c w : List ℕ) (t' t'' : S)
      → seal t ps ≡ some (w, t')
      → T.write_message t' p ≡ some (c, t'')
      → seal t (ps ++ (p ∷ [])) ≡ some (w ++ frame c, t'')
  seal-append t [] p c w t' t'' e k =
      seal_cons t p [] c [] t'' t'' (rw start k) (unfold seal in refl)
      ∙ ap (λ x. some (x, t'')) (append-nil (frame c) ∙ ap (λ x. x ++ frame c) empty)
    where
      both : ◌≡◌ {A = Option (List ℕ × S)} (some ([], t)) (some (w, t'))
      both = unfold seal in e

      empty : [] ≡ w
      empty = cc both

      start : t ≡ t'
      start = cc both
  seal-append t (q ∷ ps) p c w t' t'' e k =
      let (d, u, v, h, l, same) = seal_uncons t q ps w t' e in
      seal_cons t q (ps ++ (p ∷ [])) d (v ++ frame c) u t'' h (seal-append u ps p c v t' t'' l k)
      ∙ ap (λ x. some (x, t''))
          (sym (append_assoc (frame d) v (frame c)) ∙ ap (λ x. x ++ frame c) (sym same))

  module _ (InStep : S → S → Type 0) (channel : IsChannel T InStep) where
    -- The reference decoder opens what was sealed, chunk by chunk, up to the clean end.
    pub decoded-seal :
        (t u : S) (ps : List (List ℕ)) (w : List ℕ) (t' : S)
        → InStep t u
        → All (λ p. length p ≤ max_plaintext_chunk) ps
        → seal t ps ≡ some (w, t')
        → decoded T u w ≡ after (concat ps) (ends clean)
    decoded-seal t u [] w t' i fits e = ap (decoded T u) empty ∙ decoded-nil T u
      where
        both : ◌≡◌ {A = Option (List ℕ × S)} (some ([], t)) (some (w, t'))
        both = unfold seal in e

        empty : w ≡ []
        empty = cc both
    decoded-seal t u (p ∷ ps) w t' i (fit, fits) e =
        let (d, mine, theirs, wrote, size, opens, step) = channel.seals t u p i fit in
        let (c, next, v, h, l, same) = seal_uncons t p ps w t' e in
        let cd : c ≡ d = cc in
        let after_p : next ≡ mine = cc in
        let n : ℕ = length d in
        let announced : from_be_bytes (to_be_bytes n) ≡ n =
          from_be_bytes-to_be_bytes n (omega arith) in
        let head : w ≡ to_be_bytes n ++ (d ++ v) =
          same ∙ ap (λ x. frame x ++ v) cd ∙ (unfold frame in append_assoc (to_be_bytes n) d v) in
        ap (decoded T u) head
        ∙ decoded_head T u (to_be_bytes n) (d ++ v) (length-to_be_bytes n)
        ∙ decode_frame_open T (decoded T) u (from_be_bytes (to_be_bytes n)) d v (sym announced)
            (rw announced (ground arith)) opens
        ∙ ap (after p) (decoded-seal mine theirs ps v t' step fits (rw after_p at l))
        ∙ after-append p (concat ps) (ends clean)

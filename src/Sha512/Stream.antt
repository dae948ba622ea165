-- ===== src/Sha512/Stream.antt =====
-- What `update` does with the bytes that it is given.
use zettelkasten_public_subs.Common.{
  ℕ, suc, ◌+◌, ◌*◌, ◌%◌, ◌^◌, ◌≡◌, ◌<◌, refl, sym, ap, ◌∙◌, subst, true, false, List, [], ◌∷◌, ◌++◌,
  ◌==◌, if◌then◌else◌, set, length, length-append, length-set, ◌⊎◌, arith, Bool-cases, inl, inr,
}
use zettelkasten_public_subs.Sha512.Rounds.{transform}
use zettelkasten_public_subs.Sha2.Rounds.{State}
use zettelkasten_public_subs.Sha512.{Kind, Context, init, update_byte, update, initial_state}
use zettelkasten_public_subs.Sha2.Stream.{Starts, Starts-all, Starts-set}

-- Bytes taken in one after another: the state, and the bytes of the block that is not full.
unfoldable pub absorb : State → List ℕ → List ℕ → State × List ℕ
absorb s buffer [] = (s, buffer)
absorb s buffer (b ∷ bs) =
    let full = absorb (transform s (buffer ++ b ∷ [])) [] bs in
    let more = absorb s (buffer ++ b ∷ []) bs in if length buffer + 1 == 128 then full else more

-- The context after `n` bytes, of which `buffer` is what is not compressed.
pub record Holds (ctx : Context) (s : State) (buffer : List ℕ) (n : ℕ) : Type 0 where
  pub same_state : ctx.state ≡ s
  pub starts : Starts ctx.data_ buffer
  pub filled : ctx.data_length ≡ length buffer
  pub short : length buffer < 128
  pub sized : length ctx.data_ ≡ 128
  pub count : length buffer ≡ n % 128
  pub bits : (ctx.bit_length + 8 * ctx.data_length) % 2 ^ 64 ≡ 8 * n % 2 ^ 64

pub init-Holds :
    (k : Kind) (array : List ℕ) → length array ≡ 128 → Holds (init k array) (initial_state k) [] 0
unfolding init
init-Holds k array sized = record {
  same_state = refl;
  starts = refl;
  filled = refl;
  short = omega arith;
  sized = sized;
  count = refl;
  bits = refl;
}

-- One byte.
byte-Holds :
    (b : ℕ) (ctx : Context) (s : State) (buffer : List ℕ) (n : ℕ)
    → Holds ctx s buffer n
    → ((length buffer + 1 == 128) ≡ true)
        × Holds (update_byte b ctx) (transform s (buffer ++ b ∷ [])) [] (suc n)
      ⊎ ((length buffer + 1 == 128) ≡ false)
        × Holds (update_byte b ctx) s (buffer ++ b ∷ []) (suc n)
unfolding update_byte
byte-Holds b ctx s buffer n h =
    let array = set ctx.data_ ctx.data_length b in
    let starts : Starts array (buffer ++ b ∷ []) =
      subst (λ i. Starts (set ctx.data_ i b) (buffer ++ b ∷ [])) (sym h.filled)
        (Starts-set ctx.data_ buffer b h.starts (omega (arith, h.short, h.sized))) in
    let sized = length-set ctx.data_ ctx.data_length b ∙ h.sized in
    let longer = length-append buffer (b ∷ []) in
    elim (Bool-cases (length buffer + 1 == 128)) [
      | inl full ↦
          let full' : (ctx.data_length + 1 == 128) ≡ true =
            ap (λ i. i + 1 == 128) h.filled ∙ full in
          inl (
            full,
            rw full' (record {
              same_state =
                  ap (λ st. transform st array) h.same_state
                  ∙ ap (transform s)
                      (Starts-all array (buffer ++ b ∷ []) starts (ground (arith, sized, longer)));
              starts = refl;
              filled = refl;
              short = omega arith;
              sized = sized;
              count = ground (arith, h.count);
              bits = ground (arith, h.bits, h.filled);
            }),
          )
      | inr more ↦
          let more' : (ctx.data_length + 1 == 128) ≡ false =
            ap (λ i. i + 1 == 128) h.filled ∙ more in
          inr (
            more,
            rw more' (record {
              same_state = h.same_state;
              starts = starts;
              filled = omega (arith, h.filled, longer);
              short = ground (arith, h.short, longer);
              sized = sized;
              count = ground (arith, h.count, h.short, longer);
              bits = omega (arith, h.bits);
            }),
          )
    ]

-- All bytes of a text: the context holds what `absorb` says.
pub update-Holds :
    (bs : List ℕ) (ctx : Context) (s : State) (buffer : List ℕ) (n : ℕ)
    → Holds ctx s buffer n
    → (r : State × List ℕ) × (absorb s buffer bs ≡ r)
      × Holds (update bs ctx) r.0 r.1 (n + length bs)
unfolding update absorb
update-Holds [] ctx s buffer n h = ((s, buffer), refl, subst (Holds ctx s buffer) (omega arith) h)
update-Holds (b ∷ bs) ctx s buffer n h =
    let shift : suc n + length bs ≡ n + suc (length bs) = omega arith in
    elim (byte-Holds b ctx s buffer n h) [
      | inl (full, h') ↦
          let (r, e, k) =
            update-Holds bs (update_byte b ctx) (transform s (buffer ++ b ∷ [])) [] (suc n) h' in
          (r, rw full e, subst (Holds (update bs (update_byte b ctx)) r.0 r.1) shift k)
      | inr (more, h') ↦
          let (r, e, k) = update-Holds bs (update_byte b ctx) s (buffer ++ b ∷ []) (suc n) h' in
          (r, rw more e, subst (Holds (update bs (update_byte b ctx)) r.0 r.1) shift k)
    ]

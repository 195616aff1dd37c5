-- ===== src/Slave/Zero.antt =====
-- `mem_zero`: the fast loop over words decides the same as a loop over bytes, at every address.
use osdpmaster.Prelude.{
  ℕ, ◌+◌, ◌%◌, ◌≡◌, ◌↔◌, refl, true, ◌==◌, [], ◌∷◌, arith, Bool-cases, inl, inr, Bytes, All,
}
use osdpmaster.Slave.{zero_bytes, zero_words, mem_zero}

zero_words-zero_bytes : (bs : Bytes) → zero_words bs ≡ zero_bytes bs
unfolding zero_words zero_bytes
zero_words-zero_bytes (a ∷ b ∷ c ∷ d ∷ bs) = ground (arith, zero_words-zero_bytes bs)
zero_words-zero_bytes (a ∷ b ∷ c ∷ []) = refl
zero_words-zero_bytes (a ∷ b ∷ []) = refl
zero_words-zero_bytes (a ∷ []) = refl
zero_words-zero_bytes [] = refl

mem_zero-zero_bytes : (align : ℕ) (bs : Bytes) → mem_zero align bs ≡ zero_bytes bs
unfolding mem_zero zero_bytes
mem_zero-zero_bytes align [] = zero_words-zero_bytes []
mem_zero-zero_bytes align (b ∷ bs) = elim (Bool-cases (align % 8 == 0)) [
  | inl aligned ↦ rw aligned (zero_words-zero_bytes (b ∷ bs))
  | inr off ↦ rw off (ground (arith, mem_zero-zero_bytes (align + 1) bs))
]

zero_bytes_iff : (bs : Bytes) → (zero_bytes bs ≡ true) ↔ All (λ b. b ≡ 0) bs
unfolding zero_bytes
zero_bytes_iff [] = ((λ e. tt), (λ h. refl))
zero_bytes_iff (b ∷ bs) =
    let (to, from) = zero_bytes_iff bs in
    ((λ e. (ground arith, to (ground arith))), (λ h. ground (arith, from h.1)))

-- `mem_zero` says exactly whether every byte is zero, whatever the alignment of the memory.
pub mem_zero_iff : (align : ℕ) (bs : Bytes) → (mem_zero align bs ≡ true) ↔ All (λ b. b ≡ 0) bs
mem_zero_iff align bs = rw (mem_zero-zero_bytes align bs) (zero_bytes_iff bs)

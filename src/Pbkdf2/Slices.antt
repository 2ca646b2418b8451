-- ===== src/Pbkdf2/Slices.antt =====
-- Running `pbkdf2_hmac_sha512_Update` of ios/Classes/pbkdf2.c in slices.
use ether_flutter_plugin.Prelude.{
  ℕ, zero, suc, ◌+◌, ◌-◌, ◌^◌, ◌<◌, ◌≤◌, ◌≡◌, ◌∙◌, refl, ap, ap₂, u32, List, arith,
}
use ether_flutter_plugin.Pbkdf2.{Pbkdf2Context, iteration, iterate, pbkdf2_update}

abbrev reset : Pbkdf2Context → Pbkdf2Context
reset p = record p { first = 0 }

module _ (transform : List ℕ → List ℕ → List ℕ) where
  iterate_add :
      (m n : ℕ) (p : Pbkdf2Context)
      → iterate transform n (iterate transform m p) ≡ iterate transform (m + n) p
  unfolding iterate
  iterate_add zero n p = ap (λ k. iterate transform k p) {x = n} {y = 0 + n} (omega arith)
  iterate_add (suc m) n p =
      iterate_add m n (iteration transform p)
      ∙ ap (λ k. iterate transform k p) {x = suc (m + n)} {y = suc m + n} (omega arith)

  -- The loop does not look at `first`.
  iterate-first :
      (n : ℕ) (p : Pbkdf2Context)
      → reset (iterate transform n (reset p)) ≡ reset (iterate transform n p)
  unfolding iterate iteration
  iterate-first zero p = refl
  iterate-first (suc n) p = iterate-first n (iteration transform p)

  -- Updates of m and then n iterations are one update of m + n, where m is at least `first` (1 after
  -- the init functions, 0 after an update) and m + n fits a uint32_t.
  pub pbkdf2_update_add :
      (p : Pbkdf2Context) (m n : ℕ)
      → p.first ≤ m
      → m + n < 2 ^ 32
      → pbkdf2_update transform (pbkdf2_update transform p m) n ≡ pbkdf2_update transform p (m + n)
  unfolding pbkdf2_update
  pbkdf2_update_add p m n h fits =
      let first : u32 m - p.first ≡ m - p.first = omega arith in
      let second : u32 n - 0 ≡ n = omega arith in
      ap₂ (λ j k. reset (iterate transform k (reset (iterate transform j p)))) first second
      ∙ iterate-first n (iterate transform (m - p.first) p)
      ∙ ap reset (iterate_add (m - p.first) n p)
      ∙ ap (λ k. reset (iterate transform k p)) {x = m - p.first + n} {y = u32 (m + n) - p.first}
          (omega arith)

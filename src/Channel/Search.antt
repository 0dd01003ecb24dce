-- ===== src/Channel/Search.antt =====
-- The search for a channel (the `do … while` loops of src/kvcache.cpp): hit and miss.
use kvcache.Base.{
  ℕ, zero, suc, ◌+◌, ◌-◌, ◌%◌, ◌<◌, ◌≤◌, ◌≡◌, ◌∙◌, ap, sym, inl, inr, Bool, true, false, none, some,
  arith, ◌==◌, Bool-cases,
}
use native.Mathlib.Decide.{dec_lt}
use native.Mathlib.Nat.{mod-add-mod, mod-eq_of_lt, mod-eq-sub-mod}
use kvcache.State.{Config, next_channel}
use kvcache.Channel.{scan_channels, find_channel}

-- Below twice the modulus a remainder is the number or the number less the modulus.
pub mod_below : (a n : ℕ) → a < n → a % n ≡ a
mod_below a n h = mod-eq_of_lt h

mod_wrapped : (a n : ℕ) → n ≤ a → a < n + n → a % n ≡ a - n
mod_wrapped a n h k = mod-eq-sub-mod h ∙ mod-eq_of_lt (omega arith)

-- One step round the channels.
mod_step : (b k n : ℕ) → ((b + k) % n + 1) % n ≡ (b + suc k) % n
mod_step b k n = mod-add-mod (b + k) n 1 ∙ ap (λ (x : ℕ). x % n) (omega arith)

-- The first step that comes back to the beginning is the `n`-th.
mod_returns : (b k n : ℕ) → b < n → k < n → (b + suc k) % n ≡ b → suc k ≡ n
mod_returns b k n hb hk e = elim (dec_lt (b + suc k) n) [
  | yes p ↦ absurd (omega (arith, e, mod_below (b + suc k) n p))
  | no p ↦ omega (arith, e, mod_wrapped (b + suc k) n (omega arith) (omega arith))
]

pub mod_full : (b n : ℕ) → b < n → (b + n) % n ≡ b
mod_full b n h = mod_wrapped (b + n) n (omega arith) (omega arith) ∙ omega arith

module _ (cfg : Config) (nonempty : ℕ → Bool) where
  -- What the search finds has something.
  scan_channels-hit :
      (rounds beginning channel found : ℕ)
      → (scan_channels cfg rounds nonempty beginning channel).0 ≡ some found
      → nonempty found ≡ true
  unfolding scan_channels
  scan_channels-hit zero beginning channel found p = cc
  scan_channels-hit (suc rounds) beginning channel found p =
      ground (arith, scan_channels-hit rounds beginning (next_channel cfg channel) found)

  pub find_channel-hit :
      (beginning found : ℕ)
      → (find_channel cfg nonempty beginning).0 ≡ some found
      → nonempty found ≡ true
  unfolding find_channel
  find_channel-hit beginning found p = scan_channels-hit cfg.nr_channels beginning beginning found p

  -- After `k` steps from the beginning, the search that ends with nothing has `k` channels behind it
  -- and passes the rest.
  scan_channels-miss :
      (rounds k beginning : ℕ)
      → beginning < cfg.nr_channels
      → k < cfg.nr_channels
      → k + rounds ≡ cfg.nr_channels
      → (scan_channels cfg rounds nonempty beginning ((beginning + k) % cfg.nr_channels)).0 ≡ none
      → (j : ℕ) → k ≤ j
      → j < cfg.nr_channels
      → nonempty ((beginning + j) % cfg.nr_channels) ≡ false
  unfolding scan_channels next_channel
  scan_channels-miss zero k beginning hb hk e p j lo hi = absurd (omega arith)
  scan_channels-miss (suc rounds) k beginning hb hk e p j lo hi =
      elim (Bool-cases (nonempty ((beginning + k) % cfg.nr_channels))) [
        | inl hit ↦ absurd (ground (arith, p, hit))
        | inr missed ↦ elim (dec_lt k j) [
          | no same ↦
              ap (λ (x : ℕ). nonempty ((beginning + x) % cfg.nr_channels)) (omega arith) ∙ missed
          | yes later ↦
              let step = mod_step beginning k cfg.nr_channels in
              elim (Bool-cases
                (next_channel cfg ((beginning + k) % cfg.nr_channels) == beginning)) [
                  | inl back ↦
                      absurd
                        (ground (arith, back, step, mod_returns beginning k cfg.nr_channels hb hk))
                  | inr on ↦
                      scan_channels-miss rounds (suc k) beginning hb (omega arith) (omega arith)
                        (ground (arith, p, missed, on, step)) j (omega arith) hi
                ]
        ]
      ]

  -- A search that finds nothing has seen every channel empty.
  pub find_channel-miss :
      (beginning channel : ℕ)
      → beginning < cfg.nr_channels
      → channel < cfg.nr_channels
      → (find_channel cfg nonempty beginning).0 ≡ none
      → nonempty channel ≡ false
  unfolding find_channel
  find_channel-miss beginning channel hb hc p =
      let n = cfg.nr_channels in
      let start : (beginning + 0) % n ≡ beginning =
        mod_below (beginning + 0) n (omega arith) ∙ omega arith in
      let seen =
        scan_channels-miss n 0 beginning hb (omega arith) (omega arith)
          (ap (λ (x : ℕ). (scan_channels cfg n nonempty beginning x).0) start ∙ p) in
      elim (dec_lt channel beginning) [
        | yes below ↦
            ap nonempty (
              sym (
                mod_wrapped (beginning + (channel + n - beginning)) n (omega arith) (omega arith)
                ∙ omega arith))
            ∙ seen (channel + n - beginning) (omega arith) (omega arith)
        | no above ↦
            ap nonempty
              (sym (mod_below (beginning + (channel - beginning)) n (omega arith) ∙ omega arith))
            ∙ seen (channel - beginning) (omega arith) (omega arith)
      ]

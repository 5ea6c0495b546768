-- ===== src/Dynamixel/Driver/Transfer/Partial.antt =====
-- What the scan of `dxl_hal_txrx` finds in the first part of an answer that is still arriving,
-- firmware/src/dynamixel/dynamixel_hal.c.
use creature_controller.Common.{
  true, ℕ, zero, suc, ◌+◌, ◌-◌, ◌*◌, ◌≤◌, ◌<◌, ◌≡◌, ◌≢◌, ap, ◌∙◌, inl, inr, false, List, [], ◌∷◌,
  ◌++◌, none, some, arith, leb, length, take, get_or, length-append, length-take, Option-cases, All,
}
use creature_controller.Dynamixel.Driver.Scan.{
  on_wire, has_header, find_packet_header, find-noise, found_header,
}

-- A number of bytes cut off behind the noise.
pub take-behind :
    (noise more : List ℕ) (n k : ℕ)
    → n ≡ length noise + k
    → take n (noise ++ more) ≡ noise ++ take k more
take-behind [] more n k e = let same : n ≡ k = omega (arith, e) in ap (λ j. take j more) same
take-behind (b ∷ noise) more zero k e = absurd (omega arith)
take-behind (b ∷ noise) more (suc n) k e =
    ap (λ l. b ∷ l) (take-behind noise more n k (omega arith))

noise_byte :
    (noise more : List ℕ) (k at : ℕ)
    → All (λ b. b ≢ 0xff) noise
    → at < length noise
    → at < k
    → get_or (take k (noise ++ more)) at 0 ≢ 0xff
noise_byte [] more k at v h g = absurd (omega arith)
noise_byte (b ∷ noise) more zero at v h g = absurd (omega arith)
noise_byte (b ∷ noise) more (suc k) zero v h g = v.0
noise_byte (b ∷ noise) more (suc k) (suc at) v h g =
    noise_byte noise more k at v.1 (omega arith) (omega arith)

not_yet :
    (noise more : List ℕ) (k at : ℕ)
    → All (λ b. b ≢ 0xff) noise
    → k < length noise + 7
    → at + 7 ≤ length (take k (noise ++ more))
    → has_header (take k (noise ++ more)) at ≡ false
unfolding has_header
not_yet noise more k at v h inside =
    ground (arith, noise_byte noise more k at v (omega (arith, short)) (omega (arith, short)))
  where
    short : length (take k (noise ++ more)) ≤ k
    short = omega (arith, length-take k (noise ++ more))

-- Before the header is complete, no header is found.
pub none-early :
    (noise more : List ℕ) (k max_end : ℕ)
    → All (λ b. b ≢ 0xff) noise
    → k < length noise + 7
    → let seen = take k (noise ++ more) in find_packet_header seen (length seen) 0 max_end ≡ none
none-early noise more k max_end v h =
    elim (Option-cases (find_packet_header seen (length seen) 0 max_end)) [
      | inl e ↦ e
      | inr ((at, end), e) ↦
          let f = found_header seen (length seen) 0 max_end at end e in
          absurd (let n = not_yet noise more k at v h f.1 in let y = f.4 in cc)
    ]
  where
    seen : List ℕ
    seen = take k (noise ++ more)

pub wire_part :
    (id lo hi : ℕ) (tail : List ℕ) (n : ℕ)
    → 7 ≤ n
    → take n (on_wire id lo hi tail) ≡ on_wire id lo hi (take (n - 7) tail)
wire_part id lo hi tail (suc (suc (suc (suc (suc (suc (suc n))))))) h =
    let same : n ≡ suc (suc (suc (suc (suc (suc (suc n)))))) - 7 = omega arith in
    ap (λ j. on_wire id lo hi (take j tail)) same
wire_part id lo hi tail zero h = absurd (omega arith)
wire_part id lo hi tail (suc zero) h = absurd (omega arith)
wire_part id lo hi tail (suc (suc zero)) h = absurd (omega arith)
wire_part id lo hi tail (suc (suc (suc zero))) h = absurd (omega arith)
wire_part id lo hi tail (suc (suc (suc (suc zero)))) h = absurd (omega arith)
wire_part id lo hi tail (suc (suc (suc (suc (suc zero))))) h = absurd (omega arith)
wire_part id lo hi tail (suc (suc (suc (suc (suc (suc zero)))))) h = absurd (omega arith)

pub find_here :
    (noise tail : List ℕ) (id lo hi max_end : ℕ)
    → All (λ b. b ≢ 0xff) noise
    → length noise + 7 + (lo + hi * 256) ≤ max_end
    → let seen = noise ++ on_wire id lo hi tail in
      find_packet_header seen (length seen) 0 max_end
      ≡ some (length noise, length noise + 7 + (lo + hi * 256))
find_here noise tail id lo hi max_end v fits =
    find-noise [] noise tail id lo hi (length (noise ++ on_wire id lo hi tail)) max_end v
      (omega (arith, length-append noise (on_wire id lo hi tail))) (omega arith)
    ∙ ap (λ n. some (n, n + 7 + (lo + hi * 256))) zero_more
  where
    zero_more : 0 + length noise ≡ length noise
    zero_more = omega arith

pub leb_of_eq : (m n : ℕ) → m ≡ n → leb m n ≡ true
leb_of_eq m n e = ground (arith, e)

pub long_enough : (end all seen k : ℕ) → all ≡ end → seen ≤ k → leb end seen ≡ true → all ≤ k
long_enough end all seen k same h c = ground (arith, same, h, c)

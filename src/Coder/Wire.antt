-- ===== src/Coder/Wire.antt =====
-- Reading at a position of an array whose bytes from there on are known.
use tiny_rpc.Base.{
  ℕ, zero, suc, ◌+◌, ◌-◌, ◌^◌, ◌<◌, ◌≡◌, refl, sym, ap, ◌∙◌, ◌≢◌, List, [], ◌∷◌, ◌++◌, arith, ok,
  length, drop, take, slice, All, length-append, length-drop, drop-drop, drop-append_right,
  take-append_left, take_all, le→ltb_false, lt→leb_false, lt→ltb, ne→==_false,
}
use tiny_rpc.Coder.Protocol.{net_bytes, from_net_bytes, get_int32_from_netbyte}
use tiny_rpc.Coder.Decode.{byte_at, until_nul, copy_c_string, copy_string}

pub from_net_bytes-net_bytes :
    (w : ℕ) (rest : List ℕ) → w < 2 ^ 32 → from_net_bytes (net_bytes w ++ rest) ≡ ok w
unfolding from_net_bytes
from_net_bytes-net_bytes w rest h = ap ok (omega arith)

-- No byte is 0.
abbrev pub NoNul : List ℕ → Type 0
NoNul = All (λ b. b ≢ 0)

until_nul_all : (s : List ℕ) → NoNul s → until_nul s ≡ s
until_nul_all [] h = refl
until_nul_all (b ∷ s) h = rw (ne→==_false b 0 h.0, until_nul_all s h.1)

module _ (tmp : List ℕ) where
  -- Behind `xs`, which stand at `k`, stands what follows them.
  pub advance :
      (k : ℕ) (xs : List ℕ) {rest : List ℕ}
      → drop k tmp ≡ xs ++ rest
      → drop (k + length xs) tmp ≡ rest
  advance k xs {rest} h =
      sym (drop-drop (length xs) k tmp)
      ∙ ap (drop (length xs)) h
      ∙ drop-append_right (length xs) xs rest (omega arith)
      ∙ none_dropped (length xs)
    where
      none_dropped : (n : ℕ) → drop (n - n) rest ≡ rest
      none_dropped n = let e : n - n ≡ 0 = omega arith in rw e

  pub get_int32_at :
      (k w : ℕ) {rest : List ℕ}
      → w < 2 ^ 32
      → drop k tmp ≡ net_bytes w ++ rest
      → get_int32_from_netbyte tmp k ≡ ok w
  unfolding get_int32_from_netbyte
  get_int32_at k w {rest} lt h = rw h (from_net_bytes-net_bytes w rest lt)

  -- With something behind them, the bytes at `k` lie inside the array.
  pub fits :
      (k : ℕ) (s rest : List ℕ)
      → drop k tmp ≡ s ++ rest
      → 0 < length rest
      → k + length s + length rest ≡ length tmp
  fits k s rest h more = omega (arith, ap length h, length-drop k tmp, length-append s rest)

  slice_at : (k : ℕ) (s rest : List ℕ) → drop k tmp ≡ s ++ rest → slice tmp k (length s) ≡ s
  slice_at k s rest h =
      ap (take (length s)) h
      ∙ take-append_left (length s) s rest (omega arith)
      ∙ take_all (length s) s (omega arith)

  pub copy_c_string_at :
      (limit k : ℕ) (s rest : List ℕ)
      → drop k tmp ≡ s ++ rest
      → 0 < length rest
      → NoNul s
      → length s < limit
      → limit < 2 ^ 31
      → copy_c_string limit tmp k (length s) ≡ ok s
  unfolding copy_c_string
  copy_c_string_at limit k s rest h more clean short small = rw (
    slice_at k s rest h,
    until_nul_all s clean,
    lt→leb_false (2 ^ 31) (length s) (omega arith),
    le→ltb_false limit (length s) (omega arith),
    le→ltb_false (length tmp) (k + length s) (omega (arith, fits k s rest h more)),
    lt→ltb (length s) limit short,
  )

  pub copy_string_at :
      (k : ℕ) (s rest : List ℕ)
      → drop k tmp ≡ s ++ rest
      → 0 < length rest
      → length s < 2 ^ 31
      → copy_string tmp k (length s) ≡ ok s
  unfolding copy_string
  copy_string_at k s rest h more small = rw (
    lt→leb_false (2 ^ 31) (length s) small,
    le→ltb_false (length tmp) (k + length s) (omega (arith, fits k s rest h more)),
    slice_at k s rest h,
  )

pub byte_at_lem :
    (tmp : List ℕ) (k x : ℕ) {rest : List ℕ} → drop k tmp ≡ x ∷ rest → byte_at tmp k ≡ ok x
unfolding byte_at
byte_at_lem [] zero x h = cc
byte_at_lem [] (suc k) x h = cc
byte_at_lem (y ∷ tmp) zero x h = cc
byte_at_lem (y ∷ tmp) (suc k) x h = byte_at_lem tmp k x h

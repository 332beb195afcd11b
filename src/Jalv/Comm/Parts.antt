-- ===== src/Jalv/Comm/Parts.antt =====
-- The fields of the messages, read back from their bytes.
use mathlib.Core.List.{append_assoc}
use soundcan.Base.{
  ℕ, ◌^◌, ◌<◌, ◌≡◌, ◌∙◌, refl, sym, ap, arith, List, ◌++◌, length, take, drop, length-append,
  take-append, drop-append,
}
use soundcan.Abi.{Words}
use soundcan.Jalv.Comm.{
  header_bytes, control_change_bytes, event_transfer_bytes, MessageType, code_of,
}

-- Each part of a message's bytes, read back.
module _ (abi : Words) where
  open abi use {put_u32, get_u32}

  pub get_first : (n : ℕ) (rest : List ℕ) → n < 2 ^ 32 → get_u32 (take 4 (put_u32 n ++ rest)) ≡ n
  get_first n rest h =
      ap get_u32 (take-append (put_u32 n) rest 4 (sym (abi.length-put_u32 n))) ∙ abi.get-put_u32 n h

  drop_first : (n : ℕ) (rest : List ℕ) → drop 4 (put_u32 n ++ rest) ≡ rest
  drop_first n rest = drop-append (put_u32 n) rest 4 (sym (abi.length-put_u32 n))

  pub header_parts :
      (t : MessageType) (n : ℕ)
      → n < 2 ^ 32
      → (get_u32 (take 4 (header_bytes abi t n)) ≡ code_of t)
        × (get_u32 (drop 4 (header_bytes abi t n)) ≡ n)
  unfolding header_bytes
  header_parts t n h = (
    get_first (code_of t) (put_u32 n) (code_small t),
    ap get_u32 (drop_first (code_of t) (put_u32 n)) ∙ abi.get-put_u32 n h,
  )
    where
      code_small : (t : MessageType) → code_of t < 2 ^ 32
      code_small MessageType.no_message = omega arith
      code_small _ = omega arith

  pub control_parts :
      (p v : ℕ)
      → p < 2 ^ 32
      → v < 2 ^ 32
      → (get_u32 (take 4 (control_change_bytes abi p v)) ≡ p)
        × (get_u32 (drop 4 (control_change_bytes abi p v)) ≡ v)
  unfolding control_change_bytes
  control_parts p v hp hv =
      (get_first p (put_u32 v) hp, ap get_u32 (drop_first p (put_u32 v)) ∙ abi.get-put_u32 v hv)

  -- A message buffer that starts with an event transfer and its body.
  pub event_parts :
      (m : List ℕ) (p t : ℕ) (body rest : List ℕ)
      → p < 2 ^ 32
      → t < 2 ^ 32
      → length body < 2 ^ 32
      → m ≡ (event_transfer_bytes abi p (length body) t ++ body) ++ rest
      → (get_u32 (take 4 m) ≡ p)
        × (get_u32 (take 4 (drop 4 m)) ≡ length body)
        × (get_u32 (take 4 (drop 8 m)) ≡ t)
        × (take (length body) (drop 12 m) ≡ body)
  unfolding event_transfer_bytes
  event_parts m p t body rest hp ht hb e =
      let n = length body in
      let P = put_u32 p in
      let S = put_u32 n in
      let T = put_u32 t in
      let e12 : m ≡ (P ++ (S ++ T)) ++ (body ++ rest) =
        e ∙ append_assoc (P ++ (S ++ T)) body rest in
      let e4 : m ≡ P ++ ((S ++ T) ++ (body ++ rest)) =
        e12 ∙ append_assoc P (S ++ T) (body ++ rest) in
      let e8 : m ≡ (P ++ S) ++ (T ++ (body ++ rest)) =
        e12
        ∙ ap (λ xs. xs ++ (body ++ rest)) (sym (append_assoc P S T))
        ∙ append_assoc (P ++ S) T (body ++ rest) in
      let four = abi.length-put_u32 in
      let d4 =
        ap (drop 4) e4
        ∙ drop_first p ((S ++ T) ++ (body ++ rest))
        ∙ append_assoc S T (body ++ rest) in
      let d8 =
        ap (drop 8) e8
        ∙ drop-append (P ++ S) (T ++ (body ++ rest)) 8
            (omega (arith, length-append P S, four p, four n)) in
      let d12 =
        ap (drop 12) e12
        ∙ drop-append (P ++ (S ++ T)) (body ++ rest) 12
            (omega (arith, length-append P (S ++ T), length-append S T, four p, four n, four t)) in
      (
        ap (λ xs. get_u32 (take 4 xs)) e4 ∙ get_first p ((S ++ T) ++ (body ++ rest)) hp,
        ap (λ xs. get_u32 (take 4 xs)) d4 ∙ get_first n (T ++ (body ++ rest)) hb,
        ap (λ xs. get_u32 (take 4 xs)) d8 ∙ get_first t (body ++ rest) ht,
        ap (take n) d12 ∙ take-append body rest n refl,
      )

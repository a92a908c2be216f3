-- ===== src/WalRecovery/Slices.antt =====
-- Cuts in the buffer of src/wal_recovery.cpp, and what `decode_wal_record` makes of the answers of
-- `decode_frame`.
use chronostore.Common.{
  ℕ, zero, suc, ◌+◌, ◌^◌, ◌<◌, ◌≤◌, ◌≡◌, refl, ap, sym, ◌∙◌, arith, true, false, none, some, [],
  ◌∷◌, ◌++◌, length, drop, ◌==◌, ok, throw,
}
use chronostore.Errors.{WalDecodeError}
use chronostore.Model.{Bytes}
use chronostore.WalRecord.{WalPutRecord, decode_frame, decode_wal_record, make_decode_error}

pub drop_all : (n : ℕ) (xs : Bytes) → length xs ≤ n → drop n xs ≡ []
drop_all zero [] h = refl
drop_all (suc n) [] h = refl
drop_all zero (x ∷ xs) h = absurd (omega arith)
drop_all (suc n) (x ∷ xs) h = drop_all n xs (omega arith)

pub drop_none : (n : ℕ) (xs : Bytes) → n ≡ 0 → drop n xs ≡ xs
drop_none zero xs h = refl
drop_none (suc n) xs h = absurd (omega arith)

pub drop-drop : (m n : ℕ) (xs : Bytes) → drop (m + n) xs ≡ drop n (drop m xs)
drop-drop zero n xs = ap (λ (k : ℕ). drop k xs) (omega arith)
drop-drop (suc m) n [] = drop_all (suc m + n) [] (omega arith) ∙ sym (drop_all n [] (omega arith))
drop-drop (suc m) n (x ∷ xs) =
    let e : suc m + n ≡ suc (m + n) = omega arith in
    ap (λ (k : ℕ). drop k (x ∷ xs)) e ∙ drop-drop m n xs

pub zero_plus : (n : ℕ) → 0 + n ≡ n
zero_plus n = omega arith

pub omega_suc : (m n : ℕ) → m + suc n < 2 ^ 64 → suc m < 2 ^ 64
omega_suc m n h = omega arith

pub append_split :
    (us vs xs ys : Bytes)
    → xs ++ ys ≡ us ++ vs
    → length us ≤ length xs
    → (xs ≡ us ++ drop (length us) xs) × (drop (length us) xs ++ ys ≡ vs)
append_split [] vs xs ys e h = (refl, e)
append_split (u ∷ us) vs [] ys e h = absurd (omega arith)
append_split (u ∷ us) vs (x ∷ xs) ys e h =
    let (same, split) = append_split us vs xs ys (cc (e)) (omega arith) in
    let head : x ≡ u = cc (e) in (cc (head, same), split)

pub ==_pos : (n : ℕ) → 0 < n → (n == 0) ≡ false
==_pos n h = ground arith

pub ==→le : (m n : ℕ) → (m == n) ≡ true → n ≤ m
==→le m n h = ground arith

pub decode_wal_record-throw :
    (bytes : Bytes) (error : WalDecodeError)
    → decode_frame bytes ≡ throw error
    → decode_wal_record bytes ≡ record { put_record = none; error = error; bytes_consumed = 0 }
unfolding decode_wal_record make_decode_error
decode_wal_record-throw bytes error h = rw h refl

pub decode_wal_record-ok :
    (bytes : Bytes) (r : WalPutRecord) (n : ℕ)
    → decode_frame bytes ≡ ok (r, n)
    → decode_wal_record bytes
      ≡ record { put_record = some r; error = WalDecodeError.none; bytes_consumed = n }
unfolding decode_wal_record
decode_wal_record-ok bytes r n h = rw h refl

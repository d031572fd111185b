-- ===== src/Checksum/Tests.antt =====
-- The theorems on the checksum, at short buffers.
use tiny_cp.Base.{◌<◌, ◌^◌, ◌≡◌, refl, [], ◌∷◌, arith}
use tiny_cp.Checksum.{fold_carries, fold_rounds, compute_tcp_checksum}
use tiny_cp.Checksum.Fold.{fold_carries-lt}
use tiny_cp.Checksum.Verify.{with_word, compute_tcp_checksum_verifies}

fold_carries-lt_example : fold_carries fold_rounds 0xFFFFFFFF < 2 ^ 16
fold_carries-lt_example = fold_carries-lt 0xFFFFFFFF (omega arith)

compute_tcp_checksum_verifies_example :
    compute_tcp_checksum 0x0100007F 0x0200000A
      (with_word
        (1 ∷ 2 ∷ [])
        (compute_tcp_checksum 0x0100007F 0x0200000A
          (with_word (1 ∷ 2 ∷ []) 0 (3 ∷ 4 ∷ []))
          (9 ∷ []))
        (3 ∷ 4 ∷ []))
      (9 ∷ [])
    ≡ 0
compute_tcp_checksum_verifies_example =
    compute_tcp_checksum_verifies 1 1 0x0100007F 0x0200000A (1 ∷ 2 ∷ []) (3 ∷ 4 ∷ []) (9 ∷ []) refl
      refl (omega arith) (omega arith) (omega arith) (omega arith)

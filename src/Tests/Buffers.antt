-- ===== src/Tests/Buffers.antt =====
-- crates/libs/styrene-rns/src/buffer.rs at concrete inputs.
use styrene_rs.Base.{[], ◌≡◌, refl, ◌∷◌, arith}
use styrene_rs.Buffer.StaticBuffer.{StaticBuffer, as_slice, write}
use styrene_rs.Buffer.StaticBuffer.Refinement.{IsValid}
use styrene_rs.Buffer.InputBuffer.{InputBuffer}

-- Two bytes in use of four; the third is left over from an earlier use.
abbrev half_full : StaticBuffer
half_full = record { buffer = 1 ∷ 2 ∷ 9 ∷ 0 ∷ []; len = 2 }

half_full-IsValid : IsValid 4 half_full
half_full-IsValid = record { full_size = refl; within = omega arith }

write_run : as_slice (write 4 half_full (5 ∷ 6 ∷ [])).0 ≡ 1 ∷ 2 ∷ 5 ∷ 6 ∷ []
unfolding write
write_run = refl

abbrev half_read : InputBuffer
half_read = record { buffer = 1 ∷ 2 ∷ 3 ∷ []; offset = 1 }

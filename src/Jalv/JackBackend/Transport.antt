-- ===== src/Jalv/JackBackend/Transport.antt =====
-- When a change of the transport is reported.
use soundcan.Base.{ℕ, ◌+◌, ◌%◌, ◌^◌, ◌≡◌, refl, arith, Bool, true, false, ◌&&◌, if◌then◌else◌}
use soundcan.Abi.{Floats}
use soundcan.Jalv.Process.{Process}
use soundcan.Jalv.JackBackend.{JackPosition, process_transport, xor}

xor_same : (floats : Floats) (b : Bool) → xor floats b b ≡ false
unfolding xor
xor_same floats true = refl
xor_same floats false = refl

-- Two cycles of one transport that rolls on, or stands still, with its tempo unchanged: the second one
-- reports a change exactly if it has a tempo that differs from the float that the first one kept.
pub process_transport_steady :
    (floats : Floats) (p : Process) (rolling : Bool) (pos pos' : JackPosition) (n n' : ℕ)
    → pos'.frame ≡ (if rolling then (pos.frame + n) % 2 ^ 32 else pos.frame)
    → pos'.has_bbt ≡ pos.has_bbt
    → pos'.beats_per_minute ≡ pos.beats_per_minute
    → (process_transport floats ((process_transport floats p rolling pos n).1) rolling pos' n').0
      ≡ (pos.has_bbt
          && floats.differs pos.beats_per_minute
              (floats.double_of (floats.float_of pos.beats_per_minute)))
unfolding process_transport
process_transport_steady floats p rolling pos pos' n n' frame bbt tempo =
    ground (arith, xor_same floats rolling, frame, bbt, tempo)

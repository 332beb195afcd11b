-- ===== src/Jalv/Process/Sent.antt =====
-- What the UI sends is what the audio thread applies.
use mathlib.Core.List.{append_assoc, append-nil}
use soundcan.Base.{
  ℕ, ◌≤◌, ◌≡◌, ◌∙◌, refl, sym, ap, arith, Option, some, List, [], ◌∷◌, ◌++◌, length, length-append,
}
use soundcan.Base.Maybe.{◌>>=◌}
use soundcan.Zix.{ZixRing}
use soundcan.Abi.{Words}
use soundcan.Lv2.{AtomLayout}
use soundcan.Jalv.Comm.Sends.{Message, encode, send, send_fits}
use soundcan.Jalv.Process.{Process, apply_ui_events}
use soundcan.Jalv.Process.Perform.{perform_all, encode_all, AllMessages}
use soundcan.Jalv.Process.Apply.{apply_ui_events-perform_all}

module _ (zix : ZixRing) (abi : Words) where
  open zix use {Ring, contents, space}

  -- The UI's calls of jalv_write_control and jalv_write_event, one after another.
  unfoldable pub send_all : Ring → List Message → Option Ring
  send_all r [] = some r
  send_all r (msg ∷ msgs) = send zix abi r msg >>= (λ r'. send_all r' msgs)

  send_all_fits :
      (r : Ring) (sent : List ℕ) (msgs : List Message)
      → AllMessages zix abi msgs
      → length (encode_all abi msgs) ≤ space r
      → contents r ≡ sent
      → (r' : Ring) × (send_all r msgs ≡ some r') × (contents r' ≡ sent ++ encode_all abi msgs)
  unfolding send_all encode_all
  send_all_fits r sent [] v h e = (r, refl, e ∙ sym (append-nil sent))
  send_all_fits r sent (msg ∷ msgs) (one, v) h e =
      let size = length-append (encode abi msg) (encode_all abi msgs) in
      let (r₁, run, (c, s)) = send_fits zix abi r msg one (omega arith) in
      let (r₂, runs, all) =
        send_all_fits r₁ (sent ++ encode abi msg) msgs v (omega arith)
          (c ∙ ap (λ bs. bs ++ encode abi msg) e) in
      (
        r₂,
        ground (arith, run, runs),
        all ∙ append_assoc sent (encode abi msg) (encode_all abi msgs),
      )

-- Messages that fit an empty ring are all accepted by jalv_write_control and jalv_write_event. If each
-- can be performed in turn, apply_ui_events then returns 0, leaves the ring empty, and leaves the
-- process as performing them in order does.
pub sent_messages_applied :
    (zix : ZixRing) (abi : Words) (lv2 : AtomLayout) (r : zix.Ring) (p q : Process) (nframes : ℕ)
    (msgs : List Message)
    → AllMessages zix abi msgs
    → zix.contents r ≡ []
    → length (encode_all abi msgs) ≤ zix.space r
    → perform_all abi lv2 p nframes msgs ≡ some q
    → (r₁ : zix.Ring) × (r₂ : zix.Ring) × (send_all zix abi r msgs ≡ some r₁)
      × (apply_ui_events zix abi lv2 r₁ p nframes ≡ some (0, r₂, q))
      × (zix.contents r₂ ≡ [])
sent_messages_applied zix abi lv2 r p q nframes msgs v empty fits done =
    let (r₁, sent, held) = send_all_fits zix abi r [] msgs v fits empty in
    let (r₂, run, left) = apply_ui_events-perform_all zix abi lv2 r₁ p q nframes msgs v held done in
    (r₁, r₂, sent, run, left)

-- ===== src/Introductions/Steps/Calls.antt =====
-- The calls of peers keep every invariant that lets messages leave.
use can_framework.Prelude.{Option, none, some, String}
use can_framework.Prelude.Handler.Keeps.{
  Keeps, Keeps-bind, Keeps-then, Keeps-pure, Keeps-lift, Keeps-transmit, Keeps-gets,
}
use can_framework.Introductions.Records.{Body, Peer, Message, Envelope, Db, Setting}
use can_framework.Introductions.Peers.{send, hand_over, call_peer}
use can_framework.Introductions.Flow.{hand_to}

module _ (c : Setting) (I : Db → Type 0) (sends : (m : Message) (d : Db) → I d → I (send m d)) where
  hand_over-Keeps : (e : Envelope) (p : Option Peer) → Keeps I (hand_over c e p)
  unfolding hand_over
  hand_over-Keeps e none = Keeps-pure _
  hand_over-Keeps e (some p) = Keeps-then (Keeps-transmit _ (sends _)) (Keeps-pure _)

  pub call_peer-Keeps : (n : String) (b : Body) → Keeps I (call_peer c n b)
  unfolding call_peer
  call_peer-Keeps n b =
      Keeps-bind (Keeps-lift _) (λ signature. Keeps-gets _ _ (λ d h. hand_over-Keeps _ _))

  pub hand_to-Keeps : (b : Body) (n : Option String) → Keeps I (hand_to c b n)
  unfolding hand_to
  hand_to-Keeps b none = Keeps-pure _
  hand_to-Keeps b (some n) = call_peer-Keeps n b

-- ===== src/ControlPlane/Client/Sequence.antt =====
-- The order of snapshots in engine/src/control_plane/control_plane_client.cpp.
use sbc.Base.{String, ◌≡◌, true, Option, some, List, [], ◌∷◌, arith}
use sbc.Base.Int.{ℤ, leb_ℤ, leb_ℤ_refl, leb_ℤ_trans}
use sbc.ControlPlane.Client.{
  ControlPlaneClient, WsIncomingMessage, WsEnvelope, envelope, on_message,
}

module _ (parse : String → Option WsIncomingMessage) where
  abbrev pub receive : List String → ControlPlaneClient → ControlPlaneClient
  receive [] c = c
  receive (raw ∷ raws) c = receive raws (on_message parse raw c)

  on_message-last_seq :
      (raw : String) (c : ControlPlaneClient)
      → leb_ℤ c.last_seq (on_message parse raw c).last_seq ≡ true
  unfolding on_message
  on_message-last_seq raw c = ground (arith, leb_ℤ_refl c.last_seq)

  receive-last_seq :
      (raws : List String) (c : ControlPlaneClient)
      → leb_ℤ c.last_seq (receive raws c).last_seq ≡ true
  receive-last_seq [] c = leb_ℤ_refl c.last_seq
  receive-last_seq (raw ∷ raws) c =
      leb_ℤ_trans c.last_seq _ _ (on_message-last_seq raw c)
        (receive-last_seq raws (on_message parse raw c))

  fresh-last_seq :
      (raw : String) (e : WsEnvelope) (s : ℤ) (c : ControlPlaneClient)
      → parse raw ≡ some (envelope e)
      → e.seq ≡ some s
      → leb_ℤ s (on_message parse raw c).last_seq ≡ true
  unfolding on_message
  fresh-last_seq raw e s c p q = ground (arith, leb_ℤ_refl s)

  -- No rollback: after a message with sequence number `s`, and any messages on the same connection
  -- in between, a message with a number not above `s` leaves the client as it is.
  pub client_no_rollback :
      (raw late : String) (raws : List String) (e e' : WsEnvelope) (s s' : ℤ)
      (c : ControlPlaneClient)
      → parse raw ≡ some (envelope e)
      → e.seq ≡ some s
      → parse late ≡ some (envelope e')
      → e'.seq ≡ some s'
      → leb_ℤ s' s ≡ true
      → let c' = receive raws (on_message parse raw c) in on_message parse late c' ≡ c'
  client_no_rollback raw late raws e e' s s' c p q p' q' h =
      ignored late e' s' (receive raws (on_message parse raw c)) p' q' (
        leb_ℤ_trans s' s _ h (
          leb_ℤ_trans s _ _ (fresh-last_seq raw e s c p q)
            (receive-last_seq raws (on_message parse raw c))))
    where
      ignored :
          (raw : String) (e : WsEnvelope) (s : ℤ) (c : ControlPlaneClient)
          → parse raw ≡ some (envelope e)
          → e.seq ≡ some s
          → leb_ℤ s c.last_seq ≡ true
          → on_message parse raw c ≡ c
      ignored raw e s c p q h = unfold on_message in ground arith

-- ===== src/Runtime/Engine/Trigger/Packets.antt =====
-- `issue_stage_packets`, `dispatch_packet` and `build_packet_envelope` of engine.rs.
use decision_gate.Prelude.{String, List, [], ◌∷◌, Option, none, some}
use decision_gate.Prelude.Outcome.{Outcome, ok, err}
use decision_gate.Prelude.Action.{Action, pure, raise, lift, ◌>>=◌, ◌>>◌}
use decision_gate.Core.Time.{Timestamp}
use decision_gate.Core.Disclosure.{
  DispatchTarget, PacketEnvelope, PacketPayload, PacketRecord, DispatchReceipt,
}
use decision_gate.Core.Spec.{PacketSpec}
use decision_gate.Core.State.{RunState, DecisionRecord}
use decision_gate.Runtime.Json.{Json}
use decision_gate.Runtime.Interfaces.{PolicyDecision, permit, deny, PolicyDecider}
use decision_gate.Runtime.Engine.Types.{
  ControlPlane, ControlPlaneError, dispatch, policy, policy_denied,
}
use decision_gate.Runtime.Engine.Helpers.{Fallible, stage_spec}
use decision_gate.Runtime.Engine.Evidence.{payload_hash}

-- `?` on a call of a trait: the error is wrapped.
abbrev pub map_err {ℓ κ ι} :
    {E : Type ℓ} {F : Type κ} {A : Type ι} → (E → F) → Outcome E A → Outcome F A
map_err f (ok a) = ok a
map_err f (err e) = err (f e)

abbrev pub wrap {ℓ κ ι ξ} :
    {E : Type ℓ} {F : Type κ} {W : Type ι} {A : Type ξ} → (E → F) → Action E W A → Action F W A
wrap f m world = (map_err f (m world).0, (m world).1)

module _ (J : Json) {W : Type 0} (plane : ControlPlane J W) where
  open J use {Value}
  open plane use {spec, dispatcher}

  -- The policy, where there is one, must permit; a denial is an error.
  permitted : PolicyDecision → Action ControlPlaneError W (Unit {0})
  permitted permit = pure tt
  permitted deny = raise policy_denied

  authorized :
      Option (PolicyDecider Value W)
      → DispatchTarget
      → PacketEnvelope
      → PacketPayload Value
      → Action ControlPlaneError W (Unit {0})
  unfolding permitted
  authorized none target envelope payload = pure tt
  authorized (some decider) target envelope payload = do
    decision ← wrap policy (PolicyDecider.authorize decider target envelope payload)
    permitted decision

  -- The loop over the targets of the run.
  unfoldable pub dispatch_to :
      List DispatchTarget
      → PacketEnvelope
      → PacketPayload Value
      → Action ControlPlaneError W (List DispatchReceipt)
  unfolding authorized
  dispatch_to [] envelope payload = pure []
  dispatch_to (target ∷ targets) envelope payload = do
    authorized plane.policy target envelope payload
    receipt ← wrap dispatch (dispatcher.dispatch target envelope payload)
    receipts ← dispatch_to targets envelope payload
    pure (receipt ∷ receipts)

  unfoldable pub dispatch_packet :
      RunState Value
      → PacketEnvelope
      → PacketPayload Value
      → Action ControlPlaneError W (List DispatchReceipt)
  unfolding dispatch_to
  dispatch_packet state envelope payload = dispatch_to state.dispatch_targets envelope payload

  unfoldable pub build_packet_envelope :
      RunState Value
      → String
      → PacketSpec Value
      → DecisionRecord
      → Timestamp
      → Fallible PacketEnvelope
  build_packet_envelope state stage_id packet decision issued_at =
      elim (payload_hash J plane packet.payload) [
        | ok content_hash ↦ ok (record {
          scenario_id = spec.scenario_id;
          run_id = state.run_id;
          stage_id = stage_id;
          packet_id = packet.packet_id;
          schema_id = packet.schema_id;
          content_type = packet.content_type;
          content_hash = content_hash;
          visibility = record {
            labels = packet.visibility_labels;
            policy_tags = packet.policy_tags;
          };
          expiry = packet.expiry;
          correlation_id = decision.correlation_id;
          issued_at = issued_at;
        })
        | err e ↦ err e
      ]

  -- The loop over the entry packets of a stage.
  unfoldable pub issue_packets :
      RunState Value
      → DecisionRecord
      → String
      → List (PacketSpec Value)
      → Action ControlPlaneError W (List (PacketRecord Value))
  unfolding dispatch_packet build_packet_envelope
  issue_packets state decision stage_id [] = pure []
  issue_packets state decision stage_id (packet ∷ rest) = do
    envelope ← lift (build_packet_envelope state stage_id packet decision decision.decided_at)
    receipts ← dispatch_packet state envelope packet.payload
    records ← issue_packets state decision stage_id rest
    pure (
        record {
          envelope = envelope;
          payload = packet.payload;
          receipts = receipts;
          decision_id = decision.decision_id;
        }
        ∷ records)

  unfoldable pub issue_stage_packets :
      RunState Value
      → DecisionRecord
      → String
      → Action ControlPlaneError W (List (PacketRecord Value))
  unfolding issue_packets
  issue_stage_packets state decision stage_id = do
    stage ← lift (stage_spec spec stage_id)
    issue_packets state decision stage_id stage.entry_packets

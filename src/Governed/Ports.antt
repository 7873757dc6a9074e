-- ===== src/Governed/Ports.antt =====
-- application/governed_session.py: what the ports of the tool use case keep in a governed session.
use agent_trust_runtime.Base.{String, Bool, Option, none, some, List, [], ◌==◌}
use agent_trust_runtime.Exec.{Exec, pure, ◌>>◌}
use agent_trust_runtime.Exec.Rules.{Keeps, Ensures-if, Ensures-then, Keeps-when, Keeps-pure}
use agent_trust_runtime.Value.{Fields}
use agent_trust_runtime.Host.{Host}
use agent_trust_runtime.Lifecycle.Call.{ToolCallStatus}
use agent_trust_runtime.Models.{ToolIntent, ToolResult, PermissionDecision}
use agent_trust_runtime.RunTool.{Ports, notify, prompt}
use agent_trust_runtime.RunTool.Stages.{checkpoint_stage, bind_stage, map_stage, store_stage}
use agent_trust_runtime.RunTool.Keeps.{AreKept}
use agent_trust_runtime.Governed.{Governed, Setup, on_world, record_tool_status}
use agent_trust_runtime.Governed.Runner.{governed_ports}
use agent_trust_runtime.Governed.Rules.{on_world-Keeps}

-- A predicate that the world does not matter to, and that is kept when a status is recorded, is kept
-- by every port.
module _ {W : Type 0} {P : Governed W → Type 0}
    (moves : (s : Governed W) (w : W) → P s → P (record s { world = w })) where
  pub port-Keeps : {A : Type 0} (m : Exec W A) → Keeps P (on_world m)
  port-Keeps m = on_world-Keeps m moves

  module _ (host : Host) (setup : Setup W) (ports : Ports W)
      (recorded : (status : ToolCallStatus) → Keeps P (record_tool_status setup status)) where
    pub governed_ports-AreKept : AreKept P host (governed_ports setup ports)
    unfolding governed_ports notify prompt checkpoint_stage bind_stage map_stage store_stage
    governed_ports-AreKept = record {
      append = λ kind payload. port-Keeps _;
      decide = λ i. port-Keeps _;
      check = λ i. port-Keeps _;
      execute = λ i. port-Keeps _;
      notify = recorded;
      prompt = λ i d. asked i d ports.request_approval;
      create = λ i. created i ports.create_checkpoint;
      bind = λ i r b. bound i r ports.bind_checkpoint b;
      map_facts = λ r. mapped r ports.map_facts;
      store = λ fs b. stored fs b ports.store_facts;
    }
      where
        asked :
            (i : ToolIntent) (d : PermissionDecision)
            (o : Option (PermissionDecision → Fields → Exec W String))
            → Keeps P
                (prompt host (governed_ports setup (record ports { request_approval = o })) i d)
        asked i d none = Keeps-pure none
        asked i d (some f) =
            Ensures-then _ _ (port-Keeps _)
              λ _. Ensures-then _ _ (port-Keeps _) λ answer. Keeps-pure (some answer)

        created :
            (i : ToolIntent) (o : Option (ToolIntent → Exec W (Option Fields)))
            → Keeps P (
                checkpoint_stage host
                  (governed_ports setup (record ports { create_checkpoint = o }))
                  i)
        created i none = Keeps-pure none
        created i (some f) = port-Keeps _

        entered :
            (x : Option Fields)
            → Keeps {A = Unit {0}} P (elim x [
              | none ↦ pure tt
              | some checkpoint ↦ do
                on_world (ports.append "write_recovery_checkpoint" checkpoint)
                pure tt
            ])
        entered none = Keeps-pure tt
        entered (some checkpoint) = Ensures-then _ _ (port-Keeps _) λ _. Keeps-pure tt

        bound :
            (i : ToolIntent) (r : ToolResult)
            (o : Option (ToolIntent → ToolResult → Fields → Exec W (Option Fields)))
            (b : Option Fields)
            → Keeps P (
                bind_stage host (governed_ports setup (record ports { bind_checkpoint = o })) i r b)
        bound i r o none = Keeps-pure tt
        bound i r none (some b) = Keeps-pure tt
        bound i r (some f) (some b) =
            Ensures-if (r.status == "ok") _ _ (λ _. Ensures-then _ _ (port-Keeps _) entered)
              (λ _. Keeps-pure tt)

        mapped :
            (r : ToolResult) (o : Option (ToolResult → Exec W (List Fields)))
            → Keeps P (map_stage host (governed_ports setup (record ports { map_facts = o })) r)
        mapped r none = Keeps-pure []
        mapped r (some f) = port-Keeps _

        stored :
            (fs : List Fields) (b : Bool) (o : Option (List Fields → Exec W (Unit {0})))
            → Keeps P
                (store_stage host (governed_ports setup (record ports { store_facts = o })) fs b)
        stored fs b none = Keeps-pure tt
        stored fs b (some f) = Keeps-when _ _ (port-Keeps _)

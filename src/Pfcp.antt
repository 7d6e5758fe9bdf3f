-- ===== src/Pfcp.antt =====
-- The PFCP messages that the SMF and the UPF exchange, by the arguments that the constructors of the
-- PFCP library are called with (smf/main.go, upf/pkg/upf/upf.go). Their wire format is the library's.
use openmvn.Common.{ℕ, List, String}
use openmvn.Common.Clock.{Time}

-- The first five arguments of a session message: the flags MP and FO, the SEID, the sequence number
-- and the message priority.
pub record Header : Type 0 where
  pub mp : ℕ
  pub fo : ℕ
  pub seid : ℕ
  pub sequence_number : ℕ
  pub message_priority : ℕ

pub data Interface : Type 0 where
  access core : Interface

-- `NewCreatePDR` with the elements of its PDI.
pub record CreatePdr : Type 0 where
  pub pdr_id : ℕ
  pub precedence : ℕ
  pub source_interface : Interface
  pub ue_ip : String
  pub teid : ℕ
  pub outer_header_removal : ℕ

-- `NewCreateFAR` with its forwarding parameters.
pub record CreateFar : Type 0 where
  pub far_id : ℕ
  pub apply_action : ℕ
  pub destination_interface : Interface

pub data Ie : Type 0 where
  node_id : String → Ie
  f_seid : ℕ → String → Ie
  cause_request_accepted : Ie
  recovery_time_stamp : Time → Ie
  create_pdr : CreatePdr → Ie
  create_far : CreateFar → Ie

pub data Message : Type 0 where
  heartbeat_request : ℕ → Message
  heartbeat_response : ℕ → List Ie → Message
  association_setup_request : ℕ → Message
  association_setup_response : ℕ → List Ie → Message
  session_establishment_request : Header → List Ie → Message
  session_establishment_response : Header → List Ie → Message
  session_modification_request : Header → List Ie → Message
  session_modification_response : Header → List Ie → Message
  session_deletion_request : Header → List Ie → Message
  session_deletion_response : Header → List Ie → Message
  other : Message

-- ===== src/InterCompany/Model.antt =====
-- The data of modules/board_api/links.py and of modules/inter_company/models.py and exceptions.py, and
-- the board's view of the companies. Texts are lists of code points; metadata is a JSON text.
use agent_company_factory.Prelude.{
  if◌then◌else◌, is_none, ℕ, String, Bool, true, false, Option, none, some, List, [], ◌∷◌, ◌++◌,
}
use agent_company_factory.Prelude.Keyed.{lookup}
use agent_company_factory.Orchestrator.Model.{SendResult, Text}
use agent_company_factory.Orchestrator.State.{Orchestrator}

pub data LinkStatus : Type 0 where
  link_requested link_approved link_denied link_suspended link_revoked : LinkStatus

pub data LinkRelationship : Type 0 where
  peer vendor customer : LinkRelationship

pub data CrossMessageKind : Type 0 where
  inquiry quote order invoice delivery generic : CrossMessageKind

pub data CrossStatus : Type 0 where
  cross_delivered cross_queued cross_rejected : CrossStatus

pub data CompanyStatus : Type 0 where
  company_creating company_active company_closing company_closed company_failed : CompanyStatus

pub record LinkScope : Type 0 where
  pub allowed_messages : List CrossMessageKind
  pub rate_limit_per_hour : ℕ
  pub max_payload_bytes : ℕ

-- A row of the table `board_links`.
pub record Link : Type 0 where
  pub id : ℕ
  pub from_company : ℕ
  pub to_company : ℕ
  pub relationship : LinkRelationship
  pub scope : LinkScope
  pub status : LinkStatus
  pub requested_by : ℕ
  pub requested_at : ℕ
  pub decided_by : Option ℕ
  pub decided_at : Option ℕ
  pub note : Option String

pub record CrossMessage : Type 0 where
  pub kind : CrossMessageKind
  pub subject : Text
  pub body : Text
  pub metadata : String

-- Why an entry was rejected: by the service, or by the orchestrator with its result.
pub data RejectReason : Type 0 where
  no_inbox_agent delivery_error link_not_approved_reason : RejectReason
  send_result : SendResult → RejectReason

-- A row of the table `inter_company_outbox`.
pub record CrossEntry : Type 0 where
  pub id : ℕ
  pub link_id : ℕ
  pub from_company : ℕ
  pub to_company : ℕ
  pub from_agent : ℕ
  pub target_agent : Option ℕ
  pub kind : CrossMessageKind
  pub subject : Text
  pub body : Text
  pub metadata : String
  pub status : CrossStatus
  pub reason : Option RejectReason
  pub created_at : ℕ
  pub delivered_at : Option ℕ

pub record CrossResult : Type 0 where
  pub id : ℕ
  pub link_id : ℕ
  pub status : CrossStatus
  pub target_agent : Option ℕ
  pub reason : Option RejectReason

-- A row of the table `companies`, and the orchestrator of its handle where that is loaded.
pub record Company : Type 0 where
  pub id : ℕ
  pub status : CompanyStatus
  pub handle : Option Orchestrator

-- What is mirrored to the event log of a company.
pub data MirrorEvent : Type 0 where
  link_requested_event link_approved_event : (link by : ℕ) → MirrorEvent
  external_call : (entry link : ℕ) → (outbound : Bool) → CrossStatus → MirrorEvent

-- The exceptions of the link catalogue and of the messages; `integrity` is the one of the database.
pub data LinkError : Type 0 where
  link_not_found link_already_exists company_not_found link_conflict same_company : LinkError
  integrity : LinkError

pub data CrossError : Type 0 where
  cross_link_not_found link_not_approved direction_mismatch scope_violation : CrossError
  payload_too_large cross_rate_limited target_unavailable outbox_integrity : CrossError

-- The tables of the board, the buckets of `_enforce_rate` (a missing one is empty), and what was
-- mirrored to which company.
pub record Board : Type 0 where
  pub companies : List Company
  pub links : List Link
  pub buckets : ℕ → List ℕ
  pub outbox : List CrossEntry
  pub mirrored : List (ℕ × MirrorEvent)

abbrev pub link_id_of : Link → ℕ
link_id_of l = l.id

abbrev pub company_id_of : Company → ℕ
company_id_of c = c.id

abbrev pub entry_id_of : CrossEntry → ℕ
entry_id_of e = e.id

abbrev pub is_closed : CompanyStatus → Bool
is_closed company_closed = true
is_closed company_failed = true
is_closed _ = false

abbrev pub same_link_status : LinkStatus → LinkStatus → Bool
same_link_status link_requested link_requested = true
same_link_status link_approved link_approved = true
same_link_status link_denied link_denied = true
same_link_status link_suspended link_suspended = true
same_link_status link_revoked link_revoked = true
same_link_status _ _ = false

-- A mirror entry, where the company's handle is loaded.
abbrev pub mirror : ℕ → MirrorEvent → Board → Board
mirror c e s = elim (lookup company_id_of c s.companies) [
  | none ↦ s
  | some row ↦ if is_none row.handle then s else record s { mirrored = s.mirrored ++ (c, e) ∷ [] }
]

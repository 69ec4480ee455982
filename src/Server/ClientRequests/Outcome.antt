-- ===== src/Server/ClientRequests/Outcome.antt =====
-- remus/server/Server.cxx: what holds of the server if `DetermineClientResponse` returns.
use mathlib.Core.Option.{some-injective}
use remus.Prelude.{
  ℕ, ◌≡◌, refl, inl, inr, true, false, Option, none, some, arith, Bool-cases, subst,
}
use remus.Common.ServiceTypes.{
  ServiceType, invalid_service, can_mesh_requirements, make_mesh, mesh_status, retrieve_result,
  terminate_job,
}
use remus.Server.Factory.{WorkerFactory}
use remus.Server.Message.{Message, to_client, invalid_msg}
use remus.Server.State.{Server, send}
use remus.Server.ClientRequests.{dispatch, throws, determine_client_response}

throws-decodes :
    (msg : Message) (service : ServiceType) → msg.decodes ≡ true → throws msg service ≡ false
unfolding throws
throws-decodes msg can_mesh_requirements e = rw e refl
throws-decodes msg make_mesh e = rw e refl
throws-decodes msg mesh_status e = rw e refl
throws-decodes msg retrieve_result e = rw e refl
throws-decodes msg terminate_job e = rw e refl
throws-decodes msg _ e = refl

module _ {f : WorkerFactory} where
  -- It holds of what a handler returns.
  abbrev pub Returns : (Server f → Type 0) → Option (Server f) → Type 0
  Returns P none = Unit
  Returns P (some t) = P t

  pub Returns-some :
      (P : Server f → Type 0) (o : Option (Server f)) (t : Server f)
      → Returns P o
      → o ≡ some t
      → P t
  Returns-some P none t v e = absurd (ground (arith, e))
  Returns-some P (some u) t v e = subst P (some-injective _ _ e) v

  pub determine_client_response-Returns :
      (P : Server f → Type 0) (s : Server f) (client uuid : ℕ) (msg : Message)
      → (msg.is_valid ≡ false → P (send s (to_client client invalid_service invalid_msg)))
      → (msg.is_valid ≡ true → P (dispatch s client uuid msg msg.service_type))
      → Returns P (determine_client_response s client uuid msg)
  unfolding determine_client_response
  determine_client_response-Returns P s client uuid msg v w = elim (Bool-cases msg.is_received) [
    | inr r ↦ simp r tt
    | inl r ↦ elim (Bool-cases msg.is_valid) [
      | inr e ↦ simp (r, e) (v e)
      | inl e ↦ elim (Bool-cases (throws msg msg.service_type)) [
        | inl h ↦ simp (r, e, h) tt
        | inr h ↦ simp (r, e, h) (w e)
      ]
    ]
  ]

  -- A message that is received, and whose payload the decoders read, is handled to the end.
  pub determine_client_response-returns :
      (s : Server f) (client uuid : ℕ) (msg : Message)
      → msg.is_received ≡ true
      → msg.decodes ≡ true
      → (t : Server f) × (determine_client_response s client uuid msg ≡ some t)
  unfolding determine_client_response
  determine_client_response-returns s client uuid msg r d = elim (Bool-cases msg.is_valid) [
    | inr e ↦ (send s (to_client client invalid_service invalid_msg), simp (r, e) refl)
    | inl e ↦ (
      dispatch s client uuid msg msg.service_type,
      simp (r, e, throws-decodes msg msg.service_type d) refl,
    )
  ]

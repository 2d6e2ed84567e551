-- ===== src/Service/Runs.antt =====
-- Sequences of calls of the service in services/authority: what is acknowledged is stored, and a step-up
-- receipt is redeemed once.
use ttp_protocol.Common.{
  subst, ◌≡◌, ◌≢◌, sym, ◌∙◌, String, true, ◌⊎◌, inl, inr, Numbers, arith, includes, Option-cases,
}
use ttp_protocol.Json.{Platform}
use ttp_protocol.Service.{AuthorizeRequest, permit, Host}
use ttp_protocol.Service.Formats.{safe_request}
use ttp_protocol.Service.Signer.{finalize_receipt}
use ttp_protocol.Service.Spending.{record_name}
use ttp_protocol.Service.Decide.{Answer, decide}
use ttp_protocol.Service.Handlers.{
  System, Configuration, Moment, Call, receipt_base, world_of, record_answer, authorize, parse_body,
  authorize_body, handle,
}
use ttp_protocol.Service.Spent.{decide-grows, decide-spends, decide-refuses}

module _ {Num : Type 0} ⦃number : Numbers Num⦄ (p : Platform Num) (h : Host Num)
    (c : Configuration Num) where
  -- Any sequence of calls.
  pub data Run (s : System Num) : System Num → Type 0 where
    idle : Run s s
    called :
        {t : System Num}
        → Run s t
        → (now : Moment) (call : Call) → Run s (handle p h c now call t).1

  record_answer-spent :
      (now : Moment) (r : AuthorizeRequest Num) (a : Answer Num) (s : System Num)
      → (record_answer p h c now r a s).1.spent ≡ s.spent
  unfolding record_answer
  record_answer-spent now r a s =
      elim (Option-cases (finalize_receipt p h c.secret (receipt_base p h now r a) s.ledger.last)) [
        | inl none' ↦ ground (arith, none')
        | inr (receipt, made) ↦ ground (arith, made)
      ]

  pub authorize-spent :
      (now : Moment) (r : AuthorizeRequest Num) (s : System Num)
      → (authorize p h c now r s).1.spent ≡ (decide p h (world_of p h c now s) r s.spent).1
  unfolding authorize
  authorize-spent now r s = record_answer-spent now r _ _

  -- What a call does to the system: nothing, or what the authorization of its request does.
  body_cases :
      (now : Moment) (body : String) (s : System Num)
      → ((authorize_body p h c now body s).1 ≡ s)
        ⊎ ((r : AuthorizeRequest Num) × ((authorize_body p h c now body s).1
              ≡ (authorize p h c now r s).1))
  unfolding authorize_body
  body_cases now body s = elim (Option-cases (parse_body p h body)) [
    | inl none' ↦ inl (ground (arith, none'))
    | inr (json, parsed) ↦ elim (Option-cases (safe_request json)) [
      | inl none' ↦ inl (ground (arith, parsed, none'))
      | inr (r, read) ↦ inr (r, ground (arith, parsed, read))
    ]
  ]

  routes :
      (now : Moment) (call : Call) (s : System Num)
      → ((handle p h c now call s).1 ≡ s)
        ⊎ ((handle p h c now call s).1 ≡ (authorize_body p h c now call.body s).1)
  unfolding handle
  routes now call s = ground arith

  call_cases :
      (now : Moment) (call : Call) (s : System Num)
      → ((handle p h c now call s).1 ≡ s)
        ⊎ ((r : AuthorizeRequest Num) × ((handle p h c now call s).1 ≡ (authorize p h c now r s).1))
  call_cases now call s = elim (routes now call s) [
    | inl same ↦ inl same
    | inr same ↦ elim (body_cases now call.body s) [
      | inl none' ↦ inl (same ∙ none')
      | inr (r, k) ↦ inr (r, same ∙ k)
    ]
  ]

  -- What every authorization keeps, every run keeps.
  pub Run-keeps :
      (P : System Num → Type 0) {s t : System Num}
      → ((now : Moment) (r : AuthorizeRequest Num) (u : System Num)
          → P u
          → P (authorize p h c now r u).1)
      → Run s t
      → P s
      → P t
  Run-keeps P step idle k = k
  Run-keeps P step (called {t} run now call) k =
      let before = Run-keeps P step run k in
      elim (call_cases now call t) [
        | inl same ↦ subst P (sym same) before
        | inr (r, same) ↦ subst P (sym same) (step now r t before)
      ]

  spent-kept :
      (name : String) (now : Moment) (r : AuthorizeRequest Num) (u : System Num)
      → includes u.spent name ≡ true
      → includes (authorize p h c now r u).1.spent name ≡ true
  spent-kept name now r u e =
      rw (authorize-spent now r u) (decide-grows p h (world_of p h c now u) r name u.spent e)

-- A step-up receipt is redeemed once: after a permit for a reauthorization, whatever the service is called
-- with and whatever becomes of its files, no reauthorization of the same receipt is permitted.
pub redeemed_once :
    {Num : Type 0} ⦃number : Numbers Num⦄ (p : Platform Num) (h : Host Num) (c : Configuration Num)
    (now now' : Moment) (r r' : AuthorizeRequest Num) (s s' : System Num)
    → r.action ≡ "merge request reauthorize"
    → (decide p h (world_of p h c now s) r s.spent).0.decision ≡ permit
    → Run p h c (authorize p h c now r s).1 s'
    → r'.action ≡ "merge request reauthorize"
    → r'.prior_receipt_id ≡ r.prior_receipt_id
    → (decide p h (world_of p h c now' s') r' s'.spent).0.decision ≢ permit
redeemed_once p h c now now' r r' s s' action permitted run action' same =
    let (id, (named, spent)) =
      decide-spends p h (world_of p h c now s) r s.spent action permitted in
    let later =
      Run-keeps p h c (λ u. includes u.spent (record_name p id) ≡ true)
        (spent-kept p h c (record_name p id)) run (rw (authorize-spent p h c now r s) spent) in
    decide-refuses p h (world_of p h c now' s') r' id s'.spent action' (same ∙ named) later

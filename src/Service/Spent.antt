-- ===== src/Service/Spent.antt =====
-- Which names services/authority/replayLedger.ts has spent after a decision of index.ts.
use ttp_protocol.Common.{
  ◌≡◌, ◌≢◌, String, true, false, Option, some, List, inl, inr, Numbers, arith, includes,
  Option-cases, eq_iff, eq_refl, any-find-some,
}
use ttp_protocol.Json.{Json, str, Platform}
use ttp_protocol.Json.Values.{strict_eq, strict_eq-str_right}
use ttp_protocol.Service.{AuthorizeRequest, DecisionContext, permit, Host}
use ttp_protocol.Service.Ledger.{Entry, get_entry}
use ttp_protocol.Service.Spending.{Directory, Creation, record_name, consume_step_up_receipt}
use ttp_protocol.Service.Grants.{verified_grant, context_of}
use ttp_protocol.Service.Decide.{World, redeem, reauthorize_prior, reauthorize, decide}
use ttp_protocol.Service.Permits.{decide-permit_iff}

module _ {Num : Type 0} ⦃number : Numbers Num⦄ (p : Platform Num) (h : Host Num) where
  -- What is spent stays spent.
  consume-grows :
      (d : Directory) (creation : Creation) (id name : String) (names : List String)
      → includes names name ≡ true
      → includes (consume_step_up_receipt p d creation id names).1 name ≡ true
  unfolding consume_step_up_receipt
  consume-grows d creation id name names e = ground arith

  consume-spends :
      (d : Directory) (creation : Creation) (id : String) (names : List String)
      → (consume_step_up_receipt p d creation id names).0.accepted ≡ true
      → includes (consume_step_up_receipt p d creation id names).1 (record_name p id) ≡ true
  unfolding consume_step_up_receipt
  consume-spends d creation id names e = ground (arith, eq_refl (record_name p id))

  consume-refuses :
      (d : Directory) (creation : Creation) (id : String) (names : List String)
      → includes names (record_name p id) ≡ true
      → (consume_step_up_receipt p d creation id names).0.accepted ≡ false
  unfolding consume_step_up_receipt
  consume-refuses d creation id names e = ground arith

  redeem-grows :
      (w : World Num) (context : DecisionContext Num) (prior : Entry Num) (name : String)
      (names : List String)
      → includes names name ≡ true
      → includes (redeem p h w context prior names).1 name ≡ true
  unfolding redeem
  redeem-grows w context prior name names e =
      ground (arith, consume-grows w.directory w.creation prior.id name names e)

  redeem-spends :
      (w : World Num) (context : DecisionContext Num) (prior : Entry Num) (names : List String)
      → (redeem p h w context prior names).0.decision ≡ permit
      → includes (redeem p h w context prior names).1 (record_name p prior.id) ≡ true
  unfolding redeem
  redeem-spends w context prior names e =
      ground (arith, consume-spends w.directory w.creation prior.id names)

  prior-grows :
      (w : World Num) (r : AuthorizeRequest Num) (context : DecisionContext Num) (prior : Entry Num)
      (name : String) (names : List String)
      → includes names name ≡ true
      → includes (reauthorize_prior p h w r context prior names).1 name ≡ true
  unfolding reauthorize_prior
  prior-grows w r context prior name names e =
      ground (arith, redeem-grows w context prior name names e)

  prior-spends :
      (w : World Num) (r : AuthorizeRequest Num) (context : DecisionContext Num) (prior : Entry Num)
      (names : List String)
      → (reauthorize_prior p h w r context prior names).0.decision ≡ permit
      → includes (reauthorize_prior p h w r context prior names).1 (record_name p prior.id) ≡ true
  unfolding reauthorize_prior
  prior-spends w r context prior names e = ground (arith, redeem-spends w context prior names)

  reauthorize-grows :
      (w : World Num) (r : AuthorizeRequest Num) (context : DecisionContext Num) (name : String)
      (names : List String)
      → includes names name ≡ true
      → includes (reauthorize p h w r context names).1 name ≡ true
  unfolding reauthorize
  reauthorize-grows w r context name names e =
      elim (Option-cases (get_entry r.prior_receipt_id w.entries)) [
        | inl none' ↦ ground (arith, none')
        | inr (prior, known) ↦ ground (arith, known, prior-grows w r context prior name names e)
      ]

  pub decide-grows :
      (w : World Num) (r : AuthorizeRequest Num) (name : String) (names : List String)
      → includes names name ≡ true
      → includes (decide p h w r names).1 name ≡ true
  unfolding decide
  decide-grows w r name names e = ground (
    arith,
    reauthorize-grows w r (context_of p h w.patterns w.now r (verified_grant p h w.grants w.now r))
        name names e,
  )

  -- A permitted reauthorization names a receipt of the ledger by its id, and spends it.
  get_entry-id :
      (v : Option (Json Num)) (entries : List (Entry Num)) {e : Entry Num}
      → get_entry v entries ≡ some e
      → v ≡ some (str e.id)
  unfolding get_entry
  get_entry-id v entries {e} found' =
      strict_eq-str_right v e.id
        (any-find-some (λ (x : Entry Num). strict_eq v (some (str x.id))) entries found').1

  reauthorize-spends :
      (w : World Num) (r : AuthorizeRequest Num) (context : DecisionContext Num)
      (names : List String)
      → (reauthorize p h w r context names).0.decision ≡ permit
      → (id : String) × ((r.prior_receipt_id ≡ some (str id))
          × (includes (reauthorize p h w r context names).1 (record_name p id) ≡ true))
  unfolding reauthorize
  reauthorize-spends w r context names e =
      elim (Option-cases (get_entry r.prior_receipt_id w.entries)) [
        | inl none' ↦ absurd (ground (arith, none'))
        | inr (prior, known) ↦ (
          prior.id,
          (
            get_entry-id r.prior_receipt_id w.entries known,
            ground (arith, known, prior-spends w r context prior names),
          ),
        )
      ]

  pub decide-spends :
      (w : World Num) (r : AuthorizeRequest Num) (names : List String)
      → r.action ≡ "merge request reauthorize"
      → (decide p h w r names).0.decision ≡ permit
      → (id : String) × ((r.prior_receipt_id ≡ some (str id))
          × (includes (decide p h w r names).1 (record_name p id) ≡ true))
  unfolding decide
  decide-spends w r names action e =
      let context = context_of p h w.patterns w.now r (verified_grant p h w.grants w.now r) in
      let action' = (eq_iff r.action "merge request reauthorize").1 action in
      let (id, (named, spent)) = reauthorize-spends w r context names (ground (arith, action')) in
      (id, (named, ground (arith, action', spent)))

  pub decide-refuses :
      (w : World Num) (r : AuthorizeRequest Num) (id : String) (names : List String)
      → r.action ≡ "merge request reauthorize"
      → r.prior_receipt_id ≡ some (str id)
      → includes names (record_name p id) ≡ true
      → (decide p h w r names).0.decision ≢ permit
  decide-refuses w r id names action named spent e =
      elim ((decide-permit_iff p h w r names).0 e).1.1 [
        | inl (other, _) ↦ other action
        | inr (_, (_, (prior, (known, k)))) ↦
            let same : prior.id ≡ id =
              ground (arith, get_entry-id r.prior_receipt_id w.entries known) in
            absurd (
              ground (
                arith,
                k.spent,
                consume-refuses w.directory w.creation prior.id names (rw same spent),
              ))
      ]

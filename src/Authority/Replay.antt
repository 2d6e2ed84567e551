-- ===== src/Authority/Replay.antt =====
-- No nonce is accepted twice by packages/pctr/src/authority.mjs and boundary.mjs.
use ttp_protocol.Common.{
  ◌≡◌, inl, inr, String, true, false, ◌||◌, Option, none, some, List, [], ◌∷◌, ◌++◌, arith, Numbers,
  eq_refl, Bool-cases,
}
use ttp_protocol.Json.{Json, str, Platform}
use ttp_protocol.Json.Values.{get, strict_eq}
use ttp_protocol.Signing.{Crypto}
use ttp_protocol.Authority.{
  Authority, Execution, Options, Store, spent_nonce, seen, spend, verify_authority, conclude,
}
use ttp_protocol.Authority.Accepts.{verify_authority-allowed_iff, IsAccepted-all_failures}
use ttp_protocol.Boundary.{Boundary, Attempt, present, options_at, verify, run}

module _ {Num : Type 0} ⦃number : Numbers Num⦄ where
  any-append :
      (spent : List (Option (Json Num))) (m n : Option (Json Num))
      → spent_nonce (spent ++ m ∷ []) n ≡ (spent_nonce spent n || strict_eq m n)
  any-append [] m n = ground arith
  any-append (x ∷ spent) m n = ground (arith, any-append spent m n)

  seen-spend :
      (store : Store Num) (m n : Option (Json Num))
      → seen store n ≡ true
      → seen (spend store m) n ≡ true
  unfolding seen spend
  seen-spend none m n h = h
  seen-spend (some spent) m n h = ground (arith, any-append spent m n)

  seen-spend_self :
      (spent : List (Option (Json Num))) (s : String)
      → seen (spend (some spent) (some (str s))) (some (str s)) ≡ true
  unfolding seen spend
  seen-spend_self spent s =
      ground (arith, any-append spent (some (str s)) (some (str s)), eq_refl s)

module _ {Num Key : Type 0} ⦃number : Numbers Num⦄ (p : Platform Num) (c : Crypto Key) where
  seen-verify_authority :
      (o : Options Num Key) (e : Execution Num) (a : Option (Authority Num Key)) (store : Store Num)
      (n : Option (Json Num))
      → seen store n ≡ true
      → seen (verify_authority p c o e a store).1 n ≡ true
  unfolding verify_authority
  seen-verify_authority o e none store n h = h
  seen-verify_authority o e (some a) store n h =
      ground (arith, seen-spend store (get a.envelope "nonce") n)

  seen-run :
      (b : Boundary Key) (ts : List (Attempt Num Key)) (store : Store Num) (n : Option (Json Num))
      → seen store n ≡ true
      → seen (run p c b ts store) n ≡ true
  unfolding run verify
  seen-run b [] store n h = h
  seen-run b (t ∷ ts) store n h =
      seen-run b ts _ n (seen-verify_authority _ t.execution t.authority store n h)

  -- Accepting spends the nonce, and a refusal leaves the store as it was.
  spent_of_allowed :
      (o : Options Num Key) (e : Execution Num) (a : Authority Num Key)
      (spent : List (Option (Json Num))) (s : String)
      → get a.envelope "nonce" ≡ some (str s)
      → (verify_authority p c o e (some a) (some spent)).0.allowed ≡ true
      → seen (verify_authority p c o e (some a) (some spent)).1 (some (str s)) ≡ true
  unfolding verify_authority conclude
  spent_of_allowed o e a spent s named h =
      let accepted = (verify_authority-allowed_iff p c o e a (some spent)).0 h in
      rw (IsAccepted-all_failures p c o e a (some spent) accepted, named) (seen-spend_self spent s)

  refused_of_seen :
      (o : Options Num Key) (e : Execution Num) (a : Authority Num Key) (store : Store Num)
      → seen store (get a.envelope "nonce") ≡ true
      → (verify_authority p c o e (some a) store).0.allowed ≡ false
  refused_of_seen o e a store h =
      elim (Bool-cases (verify_authority p c o e (some a) store).0.allowed) [
        | inl yes' ↦ cc (((verify_authority-allowed_iff p c o e a store).0 yes').unspent)
        | inr no' ↦ no'
      ]

-- Once the boundary has allowed an authority with a text as nonce, no authority with that nonce is
-- ever allowed again, whatever it is asked in between.
pub verify_once :
    {Num Key : Type 0} ⦃number : Numbers Num⦄ (p : Platform Num) (c : Crypto Key) (b : Boundary Key)
    (a a' : Authority Num Key) (e e' : Execution Num) (now now' : Json Num) (s : String)
    (spent : List (Option (Json Num))) (between : List (Attempt Num Key))
    → get a.envelope "nonce" ≡ some (str s)
    → get a'.envelope "nonce" ≡ some (str s)
    → (verify p c b (present a e now) (some spent)).0.allowed ≡ true
    → (verify p c b
        (present a' e' now')
        (run p c b between (verify p c b (present a e now) (some spent)).1)).0.allowed
      ≡ false
unfolding verify
verify_once p c b a a' e e' now now' s spent between named named' h =
    refused_of_seen p c (options_at p c b now') e' a' _ (
      rw named' (
        seen-run p c b between _ (some (str s))
          (spent_of_allowed p c (options_at p c b now) e a spent s named h)))

-- ===== src/TrustAuthority/Submitted.antt =====
-- Which receipts reference-implementations/trust-authority/src accepts.
use ttp_protocol.Common.{String, ℕ, Option, arith, Numbers, ◌≤◌, List, [], ◌∷◌, ◌++◌}
use ttp_protocol.Json.{Json, Platform}
use ttp_protocol.TrustAuthority.{TtpStore, Host}
use ttp_protocol.TrustAuthority.Submit.{
  Reply, Outside, submit_receipt, submit_batch, submit_peer_receipt,
}
use ttp_protocol.TrustAuthority.Kept.{Other, Other-keeps}
use ttp_protocol.TrustAuthority.Counts.{
  acceptances, acceptances-append, replies_of, mark, Counts, submit-Counts, batch-Counts,
  peer-Counts,
}

module _ {Num : Type 0} ⦃number : Numbers Num⦄ (p : Platform Num) (h : Host Num) where
  -- A call with its replies: a receipt, a batch, a receipt of a peer, or any other call.
  pub data Step (store : TtpStore Num) : List (Reply Num) → TtpStore Num → Type 0 where
    single :
        (now : ℕ) (body : Option (Json Num))
        → Step store
            ((submit_receipt p h now body store).0 ∷ [])
            (submit_receipt p h now body store).1
    batch :
        (now : ℕ) (body : Option (Json Num))
        → Step store
            (replies_of (submit_batch p h now body store).0)
            (submit_batch p h now body store).1
    peer :
        (outside : Outside Num) (receipt token : Option (Json Num))
        → Step store
            ((submit_peer_receipt p h outside receipt token store).0 ∷ [])
            (submit_peer_receipt p h outside receipt token store).1
    other : {t : TtpStore Num} → Other p h store t → Step store [] t

  -- Calls in turn, with all their replies.
  pub data Run (store : TtpStore Num) : List (Reply Num) → TtpStore Num → Type 0 where
    idle : Run store [] store
    step :
        {t u : TtpStore Num} {replies now_told : List (Reply Num)}
        → Run store replies t
        → Step t now_told u
        → Run store (replies ++ now_told) u

  Step-Counts :
      (id : String) (store : TtpStore Num) {t : TtpStore Num} {replies : List (Reply Num)}
      → Step store replies t
      → Counts p h id store (replies, t)
  unfolding Counts mark
  Step-Counts id store (single now body) = submit-Counts p h id now body store
  Step-Counts id store (batch now body) = batch-Counts p h id now body store
  Step-Counts id store (peer outside receipt token) = peer-Counts p h id outside receipt token store
  Step-Counts id store (other kept) = ground (arith, Other-keeps p h id store kept)

  Run-Counts :
      (id : String) (store : TtpStore Num) {t : TtpStore Num} {replies : List (Reply Num)}
      → Run store replies t
      → Counts p h id store (replies, t)
  unfolding Counts
  Run-Counts id store idle = omega arith
  Run-Counts id store (step {t} {u} {replies} {now_told} run call) =
      let before = Run-Counts id store run in
      let after = Step-Counts id t call in
      omega (arith, before, after, acceptances-append id replies now_told)

  mark-one : (id : String) (store : TtpStore Num) → mark p h id store ≤ 1
  unfolding mark
  mark-one id store = ground arith

-- A text id is accepted at most once: of all replies to any sequence of receipts, batches, receipts
-- of peers, requests for tokens and calls of the operator, from any store, with nothing pruned, at
-- most one accepts it.
pub accepted_once :
    {Num : Type 0} ⦃number : Numbers Num⦄ (p : Platform Num) (h : Host Num) (id : String)
    (store store' : TtpStore Num) (replies : List (Reply Num))
    → Run p h store replies store'
    → acceptances id replies ≤ 1
unfolding Counts
accepted_once p h id store store' replies run =
    omega (arith, Run-Counts p h id store run, mark-one p h id store')

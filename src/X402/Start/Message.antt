-- ===== src/X402/Start/Message.antt =====
-- The message that `x402_start` signs, and the one that the contract verifies.
use ppv_stream_rust.Prelude.{
  ℕ, String, ◌≡◌, ◌≢◌, refl, Bool, false, List, [], ◌∷◌, ◌++◌, arith, nat_eq, Bool-cases, inl, inr,
}
use ppv_stream_rust.Prelude.Attempt.{done}
use ppv_stream_rust.Wallet.{Session}
use ppv_stream_rust.X402.{Books, Query}
use ppv_stream_rust.X402.Start.{
  Contract, contract_verifies, signed_message, verified_message, sign_quote, x402_start,
}
use ppv_stream_rust.X402.Quote.{
  AbiToken, address, uint, Signing, Signer, StartPayReq, StartPayResp, started, Quote, quote,
}

-- The contract's own address and its chain are all that the signed values lack.
verified_message-append :
    (env : Signer) (body : StartPayReq) (q : Quote) (this chain : ℕ)
    → verified_message env body q this chain
      ≡ signed_message env body q ++ address this ∷ uint chain ∷ []
unfolding signed_message verified_message
verified_message-append env body q this chain = refl

signed_message-ne_verified_message :
    (env : Signer) (body : StartPayReq) (q : Quote) (this chain : ℕ)
    → verified_message env body q this chain ≢ signed_message env body q
unfolding signed_message verified_message
signed_message-ne_verified_message env body q this chain h = cc

-- What is answered is signed over the message of the quote.
started-signed :
    (env : Signer) (body : StartPayReq) (q : Quote) (resp : StartPayResp)
    → sign_quote env body q ≡ started resp
    → env.sign env.admin_key (signed_message env body q) ≡ Signing.signed resp.signature
unfolding sign_quote
started-signed env body q resp h = ground arith

-- Whatever contract of whatever address, chain and time, and whatever statements fail: if a signature
-- that the administrator's key made of values is recovered to the administrator's account from no other
-- values, the contract verifies no signature that `x402_start` answers; and it would verify the same
-- values, in the same order, but for its own address and its chain, which it appends.
pub x402_start-contract_verifies :
    (k : Contract) (env : Signer) (fails : Query → Bool) (session : Session) (body : StartPayReq)
    (s : Books) (q : Quote) (resp : StartPayResp)
    → ((signed other : List AbiToken) (signature : String)
        → env.sign env.admin_key signed ≡ Signing.signed signature
        → k.recover other signature ≡ k.admin
        → other ≡ signed)
    → quote env fails session body s ≡ done q
    → (x402_start env fails session body s).0 ≡ started resp
    → (contract_verifies k env body q resp.signature ≡ false)
      × (verified_message env body q k.this k.chain
          ≡ signed_message env body q ++ address k.this ∷ uint k.chain ∷ [])
unfolding x402_start contract_verifies
x402_start-contract_verifies k env fails session body s q resp unforged quoted answers =
    let made = started-signed env body q resp (ground (arith, quoted)) in
    let message = verified_message env body q k.this k.chain in
    (
      elim (Bool-cases (nat_eq (k.recover message resp.signature) k.admin)) [
        | inr other ↦ ground arith
        | inl recovered ↦ absurd (
            signed_message-ne_verified_message env body q k.this k.chain
              (unforged (signed_message env body q) message resp.signature made (ground arith)))
      ],
      verified_message-append env body q k.this k.chain,
    )

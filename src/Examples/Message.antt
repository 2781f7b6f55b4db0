-- ===== src/Examples/Message.antt =====
-- The theorem on the message that the contract verifies, for a key that signs one message only.
use ppv_stream_rust.Prelude.{
  String, ◌≡◌, refl, inl, inr, Bool, true, false, List, [], ◌∷◌, arith, eq_iff, ◌++◌, ◌==◌, ◌&&◌,
  nat_eq, ap, sym, ◌∙◌, Bool-cases, if◌then◌else◌,
}
use ppv_stream_rust.Prelude.Int.{pos}
use ppv_stream_rust.Prelude.Attempt.{done}
use ppv_stream_rust.Tables.{find_second, find_user, find_video}
use ppv_stream_rust.Settings.{load_payment_settings}
use ppv_stream_rust.X402.Start.{
  Contract, contract_verifies, sign_quote, signed_message, verified_message, x402_start,
}
use ppv_stream_rust.X402.Quote.{
  AbiToken, fixed_bytes, address, uint, signed, sign_failed, Signer, started, Quote, quote,
  token_amount, find_token,
}
use ppv_stream_rust.X402.Start.Message.{x402_start-contract_verifies}
use ppv_stream_rust.Examples.{alice}
use ppv_stream_rust.Examples.Chain.{works, signer, order, answer, books}

abbrev quoted : Quote
quoted = record {
  buyer_id = "a";
  video = record { id = "v"; owner_id = "c"; price_cents = pos 5000 };
  payer = 1;
  creator_wallet = "w";
  creator = 1;
  amount = 50;
}

-- Values are compared one by one.
unfoldable same_value : AbiToken → AbiToken → Bool
same_value (fixed_bytes a) (fixed_bytes b) = a == b
same_value (address a) (address b) = nat_eq a b
same_value (uint a) (uint b) = nat_eq a b
same_value _ _ = false

abbrev same_values : List AbiToken → List AbiToken → Bool
same_values [] [] = true
same_values (a ∷ as') (b ∷ bs) = same_value a b && same_values as' bs
same_values _ _ = false

same_value_lem : (a b : AbiToken) → same_value a b ≡ true → a ≡ b
unfolding same_value
same_value_lem (fixed_bytes a) (fixed_bytes b) h = ap fixed_bytes ((eq_iff a b).0 h)
same_value_lem (fixed_bytes a) (address b) h = cc
same_value_lem (fixed_bytes a) (uint b) h = cc
same_value_lem (address a) (fixed_bytes b) h = cc
same_value_lem (address a) (address b) h = ap address (ground (arith, h))
same_value_lem (address a) (uint b) h = cc
same_value_lem (uint a) (fixed_bytes b) h = cc
same_value_lem (uint a) (address b) h = cc
same_value_lem (uint a) (uint b) h = ap uint (ground (arith, h))

same_values_lem : (as' bs : List AbiToken) → same_values as' bs ≡ true → as' ≡ bs
same_values_lem [] [] h = refl
same_values_lem [] (b ∷ bs) h = cc
same_values_lem (a ∷ as') [] h = cc
same_values_lem (a ∷ as') (b ∷ bs) h =
    let first : same_value a b ≡ true = ground (arith, h) in
    let rest : same_values as' bs ≡ true = ground (arith, h) in
    rw (same_value_lem a b first, same_values_lem as' bs rest) refl

-- A key that signs the message of the quote only, and a contract that recovers its account 9 from it.
abbrev only_signer : Signer
only_signer = record signer {
  sign = λ key ms.
      if same_values ms (signed_message signer order quoted) then signed "s" else sign_failed;
}

abbrev contract : Contract
contract = record {
  this = 7;
  chain = 1;
  time = 500;
  admin = 9;
  recover = λ ms sig. if same_values ms (signed_message signer order quoted) then 9 else 0;
}

only_signer-unforged :
    (ms other : List AbiToken) (signature : String)
    → only_signer.sign only_signer.admin_key ms ≡ signed signature
    → contract.recover other signature ≡ contract.admin
    → other ≡ ms
only_signer-unforged ms other signature signs recovers =
    let known = signed_message signer order quoted in
    elim (Bool-cases (same_values ms known)) [
      | inr differs ↦ absurd (ground arith)
      | inl equal ↦ elim (Bool-cases (same_values other known)) [
        | inr differs ↦ absurd (ground arith)
        | inl equal' ↦ same_values_lem other known equal' ∙ sym (same_values_lem ms known equal)
      ]
    ]

quoted_then : quote only_signer works alice order (books []) ≡ done quoted
unfolding quote find_video find_user find_second find_token token_amount load_payment_settings
quoted_then = refl

started_then : (x402_start only_signer works alice order (books [])).0 ≡ started answer
unfolding x402_start quote find_video find_user find_second find_token token_amount sign_quote
    signed_message load_payment_settings same_value
started_then = refl

x402_start-contract_verifies_example :
    (contract_verifies contract only_signer order quoted "s" ≡ false)
    × (verified_message only_signer order quoted 7 1
        ≡ signed_message only_signer order quoted ++ address 7 ∷ uint 1 ∷ [])
x402_start-contract_verifies_example =
    x402_start-contract_verifies contract only_signer works alice order (books []) quoted answer
      only_signer-unforged quoted_then started_then

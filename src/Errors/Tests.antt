-- ===== src/Errors/Tests.antt =====
-- The error of the test in src/error.rs.
use Prim.Native.String.{◌++◌ as ◌⧺◌}
use beave_rs.Base.{◌≡◌, refl, String, true}
use beave_rs.Errors.{
  BoxError, subscription, foreign, wrap, context, mark_rejected, is_rejected, alternate, chain,
  is_own, to_string, causes, source, causes_of, write_causes,
}
use beave_rs.Errors.Chains.{alternate-chain}

quoted : String → String
quoted s = "\"" ⧺ (s ⧺ "\"")

plain : BoxError → String
plain e = to_string quoted e

abbrev orders : BoxError
orders = subscription "orders" (wrap "publish retry exhausted" (foreign "connection reset"))

orders_text : to_string quoted orders ≡ "subscription \"orders\" failed"
unfolding quoted to_string
orders_text = refl

orders_chain :
    alternate quoted plain orders
    ≡ "subscription \"orders\" failed: publish retry exhausted: connection reset"
unfolding quoted alternate to_string wrap causes source causes_of write_causes
orders_chain = refl

alternate-chain_example : alternate quoted plain orders ≡ chain quoted orders
unfolding is_own
alternate-chain_example = alternate-chain quoted plain orders refl

rejected_orders : is_rejected (context "commit" (mark_rejected orders)) ≡ true
unfolding context wrap is_rejected mark_rejected causes
rejected_orders = refl

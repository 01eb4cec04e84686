-- ===== src/Errors/Chains.antt =====
-- The texts of error chains of src/error.rs, and rejections under added context.
use Prim.Native.String.{◌++◌ as ◌⧺◌}
use text.Mathlib.TextLemmas.{append_assoc as text_assoc}
use beave_rs.Base.{arith, true, ◌≡◌, refl, sym, ap, ◌∙◌, subst, String, List, [], ◌∷◌, map}
use beave_rs.Errors.{
  BoxError, config, invalid_record, closed, timeout, failed, caused, subscription, publish_rejected,
  foreign, foreign_caused, source, to_string, causes, causes_of, join, chain, write_causes,
  alternate, is_own, context, is_rejected,
}

causes-source : (e : BoxError) → causes e ≡ e ∷ causes_of (source e)
unfolding causes source causes_of
causes-source (config m) = refl
causes-source (invalid_record m) = refl
causes-source (closed m) = refl
causes-source (timeout m) = refl
causes-source (failed m) = refl
causes-source (caused m e) = refl
causes-source (subscription name e) = refl
causes-source (publish_rejected e) = refl
causes-source (foreign m) = refl
causes-source (foreign_caused m e) = refl

write_causes-join :
    (quote : String → String) (before written : String) (es : List BoxError)
    → write_causes quote before written es ≡ join before (written ∷ map (to_string quote) es)
unfolding write_causes join
write_causes-join quote before written [] = refl
write_causes-join quote before written (e ∷ []) = refl
write_causes-join quote before written (e ∷ f ∷ es) =
    let text = to_string quote e in
    let rest = before ⧺ join before (map (to_string quote) (f ∷ es)) in
    write_causes-join quote before (written ⧺ (before ⧺ text)) (f ∷ es)
    ∙ text_assoc written (before ⧺ text) rest
    ∙ ap (λ s. written ⧺ s) (text_assoc before text rest)

own-chain :
    (quote : String → String) (e : BoxError)
    → write_causes quote ": " (to_string quote e) (causes_of (source e)) ≡ chain quote e
unfolding chain
own-chain quote e =
    write_causes-join quote ": " (to_string quote e) (causes_of (source e))
    ∙ ap (λ es. join ": " (map (to_string quote) es)) (sym (causes-source e))

-- For every error of the crate the alternate format `{:#}` prints the same text as `chain`: the error
-- and each of its causes, separated by ": ".
pub alternate-chain :
    (quote : String → String) (other : BoxError → String) (e : BoxError)
    → is_own e ≡ true
    → alternate quote other e ≡ chain quote e
unfolding alternate is_own
alternate-chain quote other (config m) own = own-chain quote (config m)
alternate-chain quote other (invalid_record m) own = own-chain quote (invalid_record m)
alternate-chain quote other (closed m) own = own-chain quote (closed m)
alternate-chain quote other (timeout m) own = own-chain quote (timeout m)
alternate-chain quote other (failed m) own = own-chain quote (failed m)
alternate-chain quote other (caused m e) own = own-chain quote (caused m e)
alternate-chain quote other (subscription name e) own = own-chain quote (subscription name e)
alternate-chain quote other (publish_rejected e) own = ground (arith, own)
alternate-chain quote other (foreign m) own = ground (arith, own)
alternate-chain quote other (foreign_caused m e) own = ground (arith, own)

pub chain-context :
    (quote : String → String) (message : String) (e : BoxError)
    → chain quote (context message e) ≡ message ⧺ (": " ⧺ chain quote e)
unfolding chain context causes join to_string
chain-context quote message e =
    subst
      (λ (es : List BoxError).
        join ": " (message ∷ map (to_string quote) es)
        ≡ message ⧺ (": " ⧺ join ": " (map (to_string quote) es)))
      (sym (causes-source e)) refl

-- Context neither makes an error a rejection nor hides one.
pub is_rejected-context :
    (message : String) (e : BoxError) → is_rejected (context message e) ≡ is_rejected e
unfolding context is_rejected causes
is_rejected-context message e = refl

-- ===== src/Correlation/Buckets.antt =====
-- The buckets of events by their keys.
use ai_devsecops_command_cen.Common.{sym}
use ai_devsecops_command_cen.Correlation.Engine.{add_event, bucket}
use ai_devsecops_command_cen.Correlation.Events.{CorrelationEvent}
use ai_devsecops_command_cen.Common.{
  ◌≤◌, String, ◌≡◌, refl, ap, ◌∙◌, Bool, Option, none, some, List, [], ◌∷◌, ◌++◌, arith, ◌==◌,
  or_else, length, select,
}
use ai_devsecops_command_cen.Common.Dict.{Dict}
use ai_devsecops_command_cen.Common.Groups
use ai_devsecops_command_cen.Common.Groups.{AllEntries-map, collect-groups}
use mathlib.Core.List.{append_assoc}
use ai_devsecops_command_cen.Common.Dict

abbrev pub is_key : String → CorrelationEvent → Bool
is_key k e = e.correlation_key == k

-- The events with a key, in order.
abbrev pub group_of : List CorrelationEvent → String → List CorrelationEvent
group_of events k = select (is_key k) events

-- What is in a bucket once further events have been put into it.
abbrev merged :
    Option (List CorrelationEvent) → List CorrelationEvent → Option (List CorrelationEvent)
merged o [] = o
merged o (e ∷ es) = some (or_else o [] ++ e ∷ es)

merged-cons :
    (o : Option (List CorrelationEvent)) (e : CorrelationEvent) (es : List CorrelationEvent)
    → merged (some (or_else o [] ++ e ∷ [])) es ≡ merged o (e ∷ es)
merged-cons o e [] = refl
merged-cons o e (f ∷ es) = ap some (append_assoc (or_else o []) (e ∷ []) (f ∷ es))

abbrev put_event : Option (List CorrelationEvent) → CorrelationEvent → List CorrelationEvent
put_event o e = or_else o [] ++ e ∷ []

bucket-collect :
    (es : List CorrelationEvent) (m : Dict (List CorrelationEvent))
    → bucket m es ≡ Groups.collect (λ e. e.correlation_key) put_event m es
unfolding bucket add_event Groups.collect
bucket-collect [] m = refl
bucket-collect (e ∷ es) m = bucket-collect es _

put_all-merged :
    (es : List CorrelationEvent) (o : Option (List CorrelationEvent))
    → Groups.put_all (λ e. e.correlation_key) put_event o es ≡ merged o es
put_all-merged [] o = refl
put_all-merged (e ∷ es) o = put_all-merged es (some (put_event o e)) ∙ merged-cons o e es

get-bucket :
    (es : List CorrelationEvent) (m : Dict (List CorrelationEvent)) (k : String)
    → Dict.get (bucket m es) k ≡ merged (Dict.get m k) (group_of es k)
get-bucket es m k =
    ap (λ d. Dict.get d k) (bucket-collect es m)
    ∙ (Groups.get-collect (λ e. e.correlation_key) put_event es m k
        ∙ put_all-merged (group_of es k) (Dict.get m k))

merged-none : (g v : List CorrelationEvent) → merged none g ≡ some v → v ≡ g
merged-none [] v h = cc
merged-none (e ∷ es) v h = cc

-- The group of each bucket has exactly the events with its key.
pub bucket-groups :
    (events : List CorrelationEvent)
    → Dict.AllEntries (λ k g. g ≡ group_of events k) (bucket [] events)
bucket-groups events = rw (bucket-collect events []) (
    AllEntries-map
      (λ k v e.
        merged-none (group_of events k) v (sym (put_all-merged (group_of events k) none) ∙ e))
      _ (collect-groups (λ e. e.correlation_key) put_event events))

-- Each key of an event has its bucket.
pub get-bucket-some :
    (events : List CorrelationEvent) (k : String)
    → 2 ≤ length (group_of events k)
    → Dict.get (bucket [] events) k ≡ some (group_of events k)
unfolding Dict.get
get-bucket-some events k h = get-bucket events [] k ∙ by_group (group_of events k) h
  where
    by_group : (g : List CorrelationEvent) → 2 ≤ length g → merged none g ≡ some g
    by_group [] h = absurd (omega (arith, h))
    by_group (e ∷ es) h = refl

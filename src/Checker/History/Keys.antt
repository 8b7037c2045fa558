-- ===== src/Checker/History/Keys.antt =====
-- `by_key` splits a history into the operations of each key, in order.
use mathlib.Core.List.{append-nil, append_assoc}
use cassette.Base.{
  ◌≡◌, refl, sym, ap, ◌∙◌, ite, Option, none, some, List, [], ◌∷◌, ◌++◌, arith, holds, keep, Dict,
  lookup, insert, lookup-insert, HasDistinctKeys, insert-HasDistinctKeys, Text, text_discrete,
}
use cassette.Checker.History.{
  Operation, History, group, append_to, insert_by_key, sort_by_key, by_key,
}

-- The operations on one key.
abbrev pub on_key : Text → List Operation → List Operation
on_key key ops = keep (λ (op : Operation). holds (text_discrete op.key key)) ops

abbrev pub or_none : Option (List Operation) → List Operation
or_none none = []
or_none (some ops) = ops

append_to-or_none :
    (o : Option (List Operation)) (op : Operation) → append_to o op ≡ or_none o ++ op ∷ []
append_to-or_none none op = refl
append_to-or_none (some ops) op = refl

or_none-insert :
    (key : Text) (d : Dict Text (List Operation)) (op : Operation)
    → or_none (
        lookup text_discrete key
          (insert text_discrete op.key (append_to (lookup text_discrete op.key d) op) d))
      ≡ or_none (lookup text_discrete key d) ++ on_key key (op ∷ [])
or_none-insert key d op =
    rw (lookup-insert text_discrete op.key key (append_to (lookup text_discrete op.key d) op) d) (
      ground (
        arith,
        append_to-or_none (lookup text_discrete op.key d) op,
        append-nil (or_none (lookup text_discrete key d)),
        λ (e : op.key ≡ key). ap (λ k. lookup text_discrete k d) e,
      ))

on_key-split :
    (key : Text) (op : Operation) (ops : List Operation)
    → on_key key (op ∷ []) ++ on_key key ops ≡ on_key key (op ∷ ops)
on_key-split key op ops = ground arith

or_none-group :
    (key : Text) (d : Dict Text (List Operation)) (ops : List Operation)
    → or_none (lookup text_discrete key (group d ops))
      ≡ or_none (lookup text_discrete key d) ++ on_key key ops
unfolding group
or_none-group key d [] = sym (append-nil (or_none (lookup text_discrete key d)))
or_none-group key d (op ∷ ops) =
    or_none-group key (insert text_discrete op.key (append_to (lookup text_discrete op.key d) op) d)
      ops
    ∙ ap (λ l. l ++ on_key key ops) (or_none-insert key d op)
    ∙ (append_assoc (or_none (lookup text_discrete key d)) (on_key key (op ∷ [])) (on_key key ops)
        ∙ ap (λ l. or_none (lookup text_discrete key d) ++ l) (on_key-split key op ops))

group-HasDistinctKeys :
    (d : Dict Text (List Operation)) (ops : List Operation)
    → HasDistinctKeys text_discrete d
    → HasDistinctKeys text_discrete (group d ops)
unfolding group
group-HasDistinctKeys d [] h = h
group-HasDistinctKeys d (op ∷ ops) h =
    group-HasDistinctKeys
      (insert text_discrete op.key (append_to (lookup text_discrete op.key d) op) d) ops
      (insert-HasDistinctKeys text_discrete op.key (append_to (lookup text_discrete op.key d) op) d
        h)

lookup-insert_by_key :
    (e : Text × List Operation) (k : Text) (d : Dict Text (List Operation))
    → lookup text_discrete e.0 d ≡ none
    → lookup text_discrete k (insert_by_key e d)
      ≡ ite (text_discrete e.0 k) (some e.1) (lookup text_discrete k d)
unfolding insert_by_key lookup
lookup-insert_by_key e k [] h = refl
lookup-insert_by_key e k (f ∷ d) h = ground (arith, lookup-insert_by_key e k d)

lookup-sort_by_key :
    (k : Text) (d : Dict Text (List Operation))
    → HasDistinctKeys text_discrete d
    → lookup text_discrete k (sort_by_key d) ≡ lookup text_discrete k d
unfolding sort_by_key lookup
lookup-sort_by_key k [] h = refl
lookup-sort_by_key k (e ∷ d) h =
    lookup-insert_by_key e k (sort_by_key d) (lookup-sort_by_key e.0 d h.1 ∙ h.0)
    ∙ (rw (lookup-sort_by_key k d h.1))

-- `by_key` files under each key exactly the operations on that key, in the order of the history.
pub lookup-by_key :
    (key : Text) (h : History) → or_none (lookup text_discrete key (by_key h)) ≡ on_key key h
unfolding by_key lookup
lookup-by_key key h =
    ap or_none (lookup-sort_by_key key (group [] h) (group-HasDistinctKeys [] h tt))
    ∙ or_none-group key [] h

insert_by_key-HasDistinctKeys :
    (e : Text × List Operation) (d : Dict Text (List Operation))
    → lookup text_discrete e.0 d ≡ none
    → HasDistinctKeys text_discrete d
    → HasDistinctKeys text_discrete (insert_by_key e d)
unfolding insert_by_key lookup
insert_by_key-HasDistinctKeys e [] h x = (refl, tt)
insert_by_key-HasDistinctKeys e (f ∷ d) h x =
    ground (arith, insert_by_key-HasDistinctKeys e d, lookup-insert_by_key e f.0 d)

sort_by_key-HasDistinctKeys :
    (d : Dict Text (List Operation))
    → HasDistinctKeys text_discrete d
    → HasDistinctKeys text_discrete (sort_by_key d)
unfolding sort_by_key
sort_by_key-HasDistinctKeys [] h = tt
sort_by_key-HasDistinctKeys (e ∷ d) h =
    insert_by_key-HasDistinctKeys e (sort_by_key d) (lookup-sort_by_key e.0 d h.1 ∙ h.0)
      (sort_by_key-HasDistinctKeys d h.1)

pub by_key-HasDistinctKeys : (h : History) → HasDistinctKeys text_discrete (by_key h)
unfolding by_key
by_key-HasDistinctKeys h = sort_by_key-HasDistinctKeys (group [] h) (group-HasDistinctKeys [] h tt)

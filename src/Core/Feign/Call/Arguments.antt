-- ===== src/Core/Feign/Call/Arguments.antt =====
-- packages/core/src/novon/core/http/feign.py: the arguments that a call takes out, one kind at a time.
use platform_backend.Prelude.{
  String, Bool, true, false, Option, none, some, List, [], ◌∷◌, ◌==◌, string_eq, eq_iff, arith,
  if◌then◌else◌, contains, is_distinct, all, All, ◌≡◌, ◌≢◌, refl, sym, ap, ◌∙◌, Option-cases,
  Bool-cases, inl, inr, beq_self, ne_of_beq,
}
use platform_backend.Dict.{Dict, get, put, pop}
use platform_backend.Dict.Laws.{get-pop_ne, get-put_self, get-put_ne}
use platform_backend.Core.Feign.{taken, take_path}
use platform_backend.Core.Feign.PathArguments.{is_given, all_given_pop}
use platform_backend.Core.Feign.Call.{Argument, kept_query, take_query}

-- The value that a name's argument gives to the path.
abbrev pub path_value : {V : Type 0} → (V → String) → Option V → String
path_value quoted none = ""
path_value quoted (some value) = quoted value

pub All-of_contains :
    (p : String → Type 0) (names : List String)
    → ((name : String) → contains name names ≡ true → p name)
    → All p names
All-of_contains p [] h = tt
All-of_contains p (name ∷ names) h =
    (h name (rw beq_self refl), All-of_contains p names (λ n given. h n (ground (arith, given))))

module _ {V : Type 0} (is_none : V → Bool) (quoted : V → String) where
  -- What taking the names leaves: their values, and the arguments of all other names.
  pub record Takes (names : List String) (arguments : Dict String V)
      (path_vars : Dict String String) : Type 0 where
    pub vars : Dict String String
    pub left : Dict String V
    pub takes : take_path is_none quoted names arguments path_vars ≡ taken vars left
    pub value_of :
        (name : String)
        → contains name names ≡ true
        → get name vars ≡ some (path_value quoted (get name arguments))
    pub other_var :
        (name : String) → contains name names ≡ false → get name vars ≡ get name path_vars
    pub other_argument :
        (name : String) → contains name names ≡ false → get name left ≡ get name arguments

  absent_parts :
      (m name : String) (names : List String)
      → contains m (name ∷ names) ≡ false
      → (name ≢ m) × (contains m names ≡ false)
  absent_parts m name names h =
      let other : (m == name) ≡ false = ground arith in
      ((λ p. ne_of_beq m name other (sym p)), ground arith)

  Takes-one :
      (name : String) (names : List String) (arguments : Dict String V)
      (path_vars : Dict String String) (value : V)
      → get name arguments ≡ some value
      → is_none value ≡ false
      → contains name names ≡ false
      → Takes names (pop name arguments) (put name (quoted value) path_vars)
      → Takes (name ∷ names) arguments path_vars
  unfolding take_path
  Takes-one name names arguments path_vars value found filled fresh h = record {
    vars = h.vars;
    left = h.left;
    takes = rw (found, filled) h.takes;
    value_of = λ m given. elim (Bool-cases (m == name)) [
      | inl same ↦
          rw ((eq_iff m name).0 same, found)
            (h.other_var name fresh ∙ get-put_self name (quoted value) path_vars)
      | inr other ↦
          h.value_of m (rw other at given)
          ∙ ap (λ o. some (path_value quoted o))
              (get-pop_ne arguments (λ p. ne_of_beq m name other (sym p)))
    ];
    other_var = λ m absent.
        let (apart, rest) = absent_parts m name names absent in
        h.other_var m rest ∙ get-put_ne (quoted value) path_vars apart;
    other_argument = λ m absent.
        let (apart, rest) = absent_parts m name names absent in
        h.other_argument m rest ∙ get-pop_ne arguments apart;
  }

  first_facts :
      (name : String) (names : List String) (arguments : Dict String V) (value : V)
      → get name arguments ≡ some value
      → is_distinct (name ∷ names) ≡ true
      → all (λ n. is_given is_none quoted (get n arguments)) (name ∷ names) ≡ true
      → (is_none value ≡ false)
        × (contains name names ≡ false)
        × (is_distinct names ≡ true)
        × (all (λ n. is_given is_none quoted (get n (pop name arguments))) names ≡ true)
  first_facts name names arguments value found distinct given =
      let given' = (rw found at given) in
      rw (all_given_pop is_none quoted name names arguments) (ground arith)

  pub take_path-Takes :
      (names : List String) (arguments : Dict String V) (path_vars : Dict String String)
      → is_distinct names ≡ true
      → all (λ n. is_given is_none quoted (get n arguments)) names ≡ true
      → Takes names arguments path_vars
  unfolding take_path
  take_path-Takes [] arguments path_vars distinct given = record {
    vars = path_vars;
    left = arguments;
    takes = refl;
    value_of = λ name h. cc;
    other_var = λ name h. refl;
    other_argument = λ name h. refl;
  }
  take_path-Takes (name ∷ names) arguments path_vars distinct given =
      elim (Option-cases (get name arguments)) [
        | inl missing ↦ cc (rw missing at given)
        | inr (value, found) ↦
            let (filled, fresh, apart, rest) =
              first_facts name names arguments value found distinct given in
            Takes-one name names arguments path_vars value found filled fresh (
              take_path-Takes names (pop name arguments) (put name (quoted value) path_vars) apart
                rest)
      ]

module _ {J : Type 0} where
  abbrev pub query_entry : String → Option (Argument J) → Dict String J → Dict String J
  query_entry name none rest = rest
  query_entry name (some argument) rest =
      if argument.is_none then rest else (name, argument.value) ∷ rest

  -- The arguments of the names that are there and not None, in the order of the names.
  abbrev pub query_of : List String → Dict String (Argument J) → Dict String J
  query_of [] arguments = []
  query_of (name ∷ names) arguments =
      query_entry name (get name arguments) (query_of names arguments)

  kept_query_lem :
      (name : String) (o : Option (Argument J)) (popped kept rest : Dict String J)
      → popped ≡ rest
      → kept ≡ rest
      → kept_query name o popped kept ≡ query_entry name o rest
  kept_query_lem name none popped kept rest p q = q
  kept_query_lem name (some argument) popped kept rest p q = rw (p, q) refl

  pub take_query-query_of :
      (names : List String) (left arguments : Dict String (Argument J))
      → is_distinct names ≡ true
      → ((name : String) → contains name names ≡ true → get name left ≡ get name arguments)
      → take_query names left ≡ query_of names arguments
  unfolding take_query
  take_query-query_of [] left arguments distinct agree = refl
  take_query-query_of (name ∷ names) left arguments distinct agree =
      let later =
        λ (m : String) (given : contains m names ≡ true). agree m (ground (arith, given)) in
      rw (agree name (rw (beq_self name) refl)) (
        kept_query_lem name (get name arguments) _ _ (query_of names arguments)
          (take_query-query_of names (pop name left) arguments (ground arith)
            (λ m given. get-pop_ne left (λ p. apart m given p) ∙ later m given))
          (take_query-query_of names left arguments (ground arith) later))
    where
      apart : (m : String) → contains m names ≡ true → name ≢ m
      apart m given p =
          let fresh : contains name names ≡ false = ground arith in
          cc (ap (λ n. contains n names) p, given, fresh)

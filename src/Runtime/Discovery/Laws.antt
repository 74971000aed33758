-- ===== src/Runtime/Discovery/Laws.antt =====
-- The registry holds at most one instance for an endpoint, each under its own service.
use zlttbots.Prelude.{
  String, ◌≡◌, refl, false, List, [], ◌∷◌, ◌++◌, keep_if, All, All-append, arith, str_eq, string_eq,
  eq_iff, if◌then◌else◌, Bool-cases, inl, inr, subst,
}
use zlttbots.Prelude.Dict.{get_or-insert, get_or-insert_self}
use zlttbots.Runtime.Discovery.{
  ServiceInstance, endpoint, ServiceDiscovery, instances, without_endpoint, register, deregister,
  resolve,
}

-- No two of the instances have the same endpoint.
abbrev pub IsDistinct : List ServiceInstance → Type 0
IsDistinct [] = Unit
IsDistinct (i ∷ is) = All (λ j. str_eq (endpoint j) (endpoint i) ≡ false) is × IsDistinct is

pub record IsValid (d : ServiceDiscovery) : Type 0 where
  pub distinct : (s : String) → IsDistinct (instances d s)
  pub filed : (s : String) → All (λ i. i.service ≡ s) (instances d s)

All-without_endpoint {κ} :
    (P : ServiceInstance → Type κ) (e : String) (is : List ServiceInstance)
    → All P is
    → All P (without_endpoint e is)
unfolding without_endpoint
All-without_endpoint P e [] h = h
All-without_endpoint P e (i ∷ is) h = elim (Bool-cases (str_eq (endpoint i) e)) [
  | inl same ↦ rw same (All-without_endpoint P e is h.1)
  | inr other ↦ rw other (h.0, All-without_endpoint P e is h.1)
]

pub without_endpoint-gone :
    (e : String) (is : List ServiceInstance)
    → All (λ i. str_eq (endpoint i) e ≡ false) (without_endpoint e is)
unfolding without_endpoint
without_endpoint-gone e [] = tt
without_endpoint-gone e (i ∷ is) = ground (arith, without_endpoint-gone e is)

without_endpoint-IsDistinct :
    (e : String) (is : List ServiceInstance) → IsDistinct is → IsDistinct (without_endpoint e is)
unfolding without_endpoint
without_endpoint-IsDistinct e [] h = h
without_endpoint-IsDistinct e (i ∷ is) h = elim (Bool-cases (str_eq (endpoint i) e)) [
  | inl same ↦ rw same (without_endpoint-IsDistinct e is h.1)
  | inr other ↦ rw other (All-without_endpoint _ e is h.0, without_endpoint-IsDistinct e is h.1)
]

str_eq_sym : (s t : String) → str_eq s t ≡ false → str_eq t s ≡ false
str_eq_sym s t h = ground (arith, eq_iff s t, eq_iff t s)

-- A new instance may stand behind instances of other endpoints.
append-IsDistinct :
    (is : List ServiceInstance) (i : ServiceInstance)
    → IsDistinct is
    → All (λ j. str_eq (endpoint j) (endpoint i) ≡ false) is
    → IsDistinct (is ++ i ∷ [])
append-IsDistinct [] i h n = (tt, tt)
append-IsDistinct (j ∷ js) i h n = (
  All-append _ js (i ∷ []) h.0 (str_eq_sym (endpoint j) (endpoint i) n.0, tt),
  append-IsDistinct js i h.1 n.1,
)

-- Registering keeps one instance for an endpoint, and files the new one under its service.
pub register-IsValid :
    (i : ServiceInstance) (d : ServiceDiscovery) → IsValid d → IsValid (register i d)
unfolding register
register-IsValid i d v = record {
  distinct = λ s. elim (Bool-cases (str_eq i.service s)) [
    | inl same ↦
        rw (get_or-insert, same)
          (append-IsDistinct _ i (without_endpoint-IsDistinct _ _ (v.distinct i.service))
            (without_endpoint-gone (endpoint i) _))
    | inr other ↦ rw (get_or-insert, other) (v.distinct s)
  ];
  filed = λ s. elim (Bool-cases (str_eq i.service s)) [
    | inl same ↦
        rw (get_or-insert, same)
          (rw (← (eq_iff i.service s).0 same)
            (All-append _ _ (i ∷ []) (All-without_endpoint _ _ _ (v.filed i.service)) (refl, tt)))
    | inr other ↦ rw (get_or-insert, other) (v.filed s)
  ];
}

-- Deregistering keeps the registry valid.
pub deregister-IsValid :
    (s e : String) (d : ServiceDiscovery) → IsValid d → IsValid (deregister s e d)
unfolding deregister
deregister-IsValid s e d v = record {
  distinct = λ t. elim (Bool-cases (str_eq s t)) [
    | inl same ↦ rw (get_or-insert, same) (without_endpoint-IsDistinct e _ (v.distinct s))
    | inr other ↦ rw (get_or-insert, other) (v.distinct t)
  ];
  filed = λ t. elim (Bool-cases (str_eq s t)) [
    | inl same ↦
        rw (get_or-insert, same)
          (rw (← (eq_iff s t).0 same) (All-without_endpoint _ e _ (v.filed s)))
    | inr other ↦ rw (get_or-insert, other) (v.filed t)
  ];
}

without_endpoint_idem :
    (e : String) (is : List ServiceInstance)
    → without_endpoint e (without_endpoint e is) ≡ without_endpoint e is
unfolding without_endpoint
without_endpoint_idem e [] = refl
without_endpoint_idem e (i ∷ is) = ground (arith, without_endpoint_idem e is)

without_endpoint-append_self :
    (is : List ServiceInstance) (i : ServiceInstance)
    → without_endpoint (endpoint i) (is ++ i ∷ []) ≡ without_endpoint (endpoint i) is
unfolding without_endpoint
without_endpoint-append_self [] i = rw ((eq_iff (endpoint i) (endpoint i)).1 refl)
without_endpoint-append_self (j ∷ js) i = ground (arith, without_endpoint-append_self js i)

instances-register_self :
    (i : ServiceInstance) (d : ServiceDiscovery)
    → instances (register i d) i.service
      ≡ without_endpoint (endpoint i) (instances d i.service) ++ i ∷ []
unfolding register
instances-register_self i d = get_or-insert_self [] i.service _ d

instances-register_ne :
    (i : ServiceInstance) (d : ServiceDiscovery) (s : String)
    → str_eq i.service s ≡ false
    → instances (register i d) s ≡ instances d s
unfolding register
instances-register_ne i d s h = rw (get_or-insert, h)

-- Registering an instance again changes no service's instances.
pub register_idem :
    (i : ServiceInstance) (d : ServiceDiscovery) (s : String)
    → instances (register i (register i d)) s ≡ instances (register i d) s
register_idem i d s = elim (Bool-cases (str_eq i.service s)) [
  | inl same ↦
      subst (λ t. instances (register i (register i d)) t ≡ instances (register i d) t)
        ((eq_iff i.service s).0 same)
        (simp (instances-register_self, without_endpoint-append_self, without_endpoint_idem))
  | inr other ↦ instances-register_ne i (register i d) s other
]

healthy-without_endpoint :
    (e : String) (is : List ServiceInstance)
    → keep_if (λ i. i.healthy) (without_endpoint e is)
      ≡ without_endpoint e (keep_if (λ i. i.healthy) is)
unfolding without_endpoint
healthy-without_endpoint e [] = refl
healthy-without_endpoint e (i ∷ is) = ground (arith, healthy-without_endpoint e is)

-- After an instance has been taken out, resolving its service gives the healthy instances that were
-- there, less those of that endpoint; other services resolve as before.
pub resolve-deregister :
    (s e t : String) (d : ServiceDiscovery)
    → (resolve t (deregister s e d)).0
      ≡ (if str_eq s t then without_endpoint e (resolve t d).0 else (resolve t d).0)
unfolding resolve deregister
resolve-deregister s e t d = elim (Bool-cases (str_eq s t)) [
  | inl same ↦
      rw (get_or-insert, same)
        (rw (← (eq_iff s t).0 same) (healthy-without_endpoint e (instances d s)))
  | inr other ↦ rw (get_or-insert, other)
]

-- Resolving a service changes no service's instances.
pub instances-resolve :
    (s t : String) (d : ServiceDiscovery) → instances (resolve s d).1 t ≡ instances d t
unfolding resolve
instances-resolve s t d = ground (arith, get_or-insert [] s t (instances d s) d, eq_iff s t)

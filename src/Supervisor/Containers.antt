-- ===== src/Supervisor/Containers.antt =====
-- The containers that the supervisor knows, and what is asked of the Docker client
-- (services/supervisor/start_agent.go).
use forta_node_tr.Prelude.{
  Text, text_eq_iff, List, [], ◌∷◌, ◌++◌, none, some, ◌≡◌, ◌≢◌, refl, sym, arith, ok,
}
use forta_node_tr.Supervisor.{
  ContainerConfig, DockerContainer, Docker, Container, Supervisor, get_container,
}

-- No two containers have the same name.
abbrev pub UniqueNames : List Container → Type 0
UniqueNames [] = Unit
UniqueNames (c ∷ cs) = (get_container c.container.name cs ≡ none) × UniqueNames cs

-- The Docker client gives a container the name that was asked for.
abbrev pub Named : {D : Type 0} → Docker D → Type 0
Named {D} docker =
    (cfg : ContainerConfig) (d d' : D) (c : DockerContainer)
    → docker.start_container cfg d ≡ (ok c, d')
    → c.name ≡ cfg.name

-- No operation that starts a container fails.
pub record Works {D : Type 0} (docker : Docker D) : Type 0 where
  pub ensure_works :
      (a b : Text) (d : D) → (d' : D) × (docker.ensure_local_image a b d ≡ (ok tt, d'))
  pub network_works :
      (a : Text) (d : D) → (n : Text) × (d' : D) × (docker.create_public_network a d ≡ (ok n, d'))
  pub start_works :
      (a : ContainerConfig) (d : D)
      → (c : DockerContainer) × (d' : D) × (docker.start_container a d ≡ (ok c, d'))
  pub attach_works : (a b : Text) (d : D) → (d' : D) × (docker.attach_network a b d ≡ (ok tt, d'))

abbrev pub Known : {D : Type 0} → Text → Supervisor D → Type 0
Known name s = (c : Container) × (get_container name s.containers ≡ some c)

pub get_container-append :
    (name : Text) (cs ds : List Container) (c : Container)
    → get_container name cs ≡ some c
    → get_container name (cs ++ ds) ≡ some c
unfolding get_container
get_container-append name [] ds c e = cc
get_container-append name (x ∷ cs) ds c e = ground (arith, get_container-append name cs ds c)

pub get_container-last :
    (name : Text) (cs : List Container) (c : Container)
    → get_container name cs ≡ none
    → c.container.name ≡ name
    → get_container name (cs ++ (c ∷ [])) ≡ some c
unfolding get_container
get_container-last name [] c e n = ground (arith, text_eq_iff c.container.name name)
get_container-last name (x ∷ cs) c e n = ground (arith, get_container-last name cs c)

pub get_container-other :
    (name : Text) (cs : List Container) (c : Container)
    → get_container name cs ≡ none
    → c.container.name ≢ name
    → get_container name (cs ++ (c ∷ [])) ≡ none
unfolding get_container
get_container-other name [] c e n = ground (arith, text_eq_iff c.container.name name)
get_container-other name (x ∷ cs) c e n = ground (arith, get_container-other name cs c)

pub get_container-miss :
    (name : Text) (x : Container) (cs : List Container)
    → get_container name (x ∷ cs) ≡ none
    → (x.container.name ≢ name) × (get_container name cs ≡ none)
unfolding get_container
get_container-miss name x cs e = ground (arith, text_eq_iff x.container.name name)

pub UniqueNames-append :
    (cs : List Container) (c : Container)
    → UniqueNames cs
    → get_container c.container.name cs ≡ none
    → UniqueNames (cs ++ (c ∷ []))
unfolding get_container
UniqueNames-append [] c u e = (refl, tt)
UniqueNames-append (x ∷ cs) c (fresh, u) e =
    let (n, e') = get_container-miss c.container.name x cs e in
    (get_container-other x.container.name cs c fresh (λ q. n (sym q)), UniqueNames-append cs c u e')

-- ===== src/Reboot/Pods.antt =====
-- internal/features/reboot/pdb.go and drain.go: what a drain does with a pod.
use simplek8s_controller.Prelude.{
  Bool, true, false, not, none, some, is_some, [], ◌∷◌, any, lookup, str_eq, if◌then◌else◌,
}
use simplek8s_controller.Kube.Types.{Pod, terminating}
use simplek8s_controller.Nodestate.State.{NodeState}

unfoldable pub is_daemon_set_managed : Pod → Bool
is_daemon_set_managed p = any (λ kind. str_eq kind "DaemonSet") p.owner_kinds

unfoldable pub is_mirror_of_static : Pod → Bool
is_mirror_of_static p =
    if is_some (lookup "kubernetes.io/config.mirror" p.annotations)
    then any (λ kind. str_eq kind "Node") p.owner_kinds
    else false

unfoldable pub evictable : Pod → Bool
unfolding terminating
evictable p =
    if terminating p
    then false
    else if is_daemon_set_managed p
    then false
    else if is_mirror_of_static p
    then false
    else true

unfoldable pub unmanaged : Pod → Bool
unmanaged p = elim p.owner_kinds [ [] ↦ true | kind ∷ rest ↦ false ]

-- A request that is absent or corrupt never forces.
unfoldable pub force_of : NodeState → Bool
force_of st = elim st.request [
  | none ↦ false
  | some r ↦ if not r.present then false else if is_some r.parse_error then false else r.force
]

-- ===== src/Port/Tests.antt =====
-- Two ports of different names, and the theorems there.
use ex_os.Base.{ℕ, ◌≡◌, ◌≢◌, ◌⊎◌, refl, true, false, some, List, [], ◌∷◌, ◌+◌, arith}
use ex_os.Thread.Ready.{occurs}
use ex_os.Thread.Tests.{two}
use ex_os.Text.{str_comp}
use ex_os.Port.{Ports, find_port, create, remove}
use ex_os.Port.Registry.{IsRegistry, create-IsRegistry}

abbrev log_name : List ℕ
log_name = b'l' ∷ b'o' ∷ b'g' ∷ []

abbrev net_name : List ℕ
net_name = b'n' ∷ b'e' ∷ b't' ∷ []

abbrev one_port : Ports
one_port = record {
  port_list = 1 ∷ [];
  names = λ x. log_name;
  fifos = λ x. record { count = 0; items = []; has_event = true };
  events = λ x. record { signalled = false; autoreset = true };
  queues = λ x. 20 + x;
  kernel = two;
}

one_port-IsRegistry : IsRegistry one_port.names one_port.port_list
unfolding occurs
one_port-IsRegistry = record {
  once = λ x. ground arith;
  strings = λ x o. (omega arith, (omega arith, (omega arith, tt)));
  unique = λ x y o o' e. ground arith;
}

taken_name : (create one_port 2 log_name).0 ≡ false
unfolding create find_port str_comp
taken_name = refl

removed_port : (remove one_port log_name).port_list ≡ []
unfolding remove find_port str_comp
removed_port = refl

create-IsRegistry_example :
    (w' : Ports) × IsRegistry w'.names w'.port_list
    × (((create one_port 2 net_name ≡ (true, w'))
          × (find_port w'.names net_name w'.port_list ≡ some 2))
        ⊎ ((create one_port 2 net_name ≡ (false, w'))
            × (w'.port_list ≡ 1 ∷ [])
            × (other : ℕ) × (occurs other (1 ∷ []) ≢ 0)
            × (one_port.names other ≡ net_name)))
unfolding occurs
create-IsRegistry_example =
    create-IsRegistry one_port 2 net_name one_port-IsRegistry
      (omega arith, (omega arith, (omega arith, tt))) refl

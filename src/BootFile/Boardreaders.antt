-- ===== src/BootFile/Boardreaders.antt =====
-- rc/control/daqinterface.py, `do_boot_impl`: the processes of the requested components.
use artdaq_daqinterface.Prelude.{
  ℕ, suc, String, ◌=ₛ◌, none, some, List, [], ◌∷◌, ◌++◌, Dict, if◌then◌else◌,
}
use artdaq_daqinterface.BootFile.{
  BootOutcome, failed, done, ◌then_do◌, host_is_list, unexpected_elements, Ports, given, formatted,
  Member, default_port,
}

module _ (e : Ports) where
  unfoldable pub boardreader : ℕ → String → String → String → String → String → String → Member
  boardreader rank compname host port subsystem allowed_processors prepend = record {
    name = "BoardReader";
    rank = rank;
    host = host;
    port = if port =ₛ "-1" then formatted (default_port e rank) else given port;
    label = compname;
    subsystem = subsystem;
    allowed_processors = if allowed_processors =ₛ "-1" then none else some allowed_processors;
    target = "EventBuilder";
    prepend = prepend;
  }

  -- A component's list of texts. Where it is the host only, the whole list stands for the host, and
  -- joining it to a text raises an exception.
  unfoldable pub read_component : ℕ → String → List String → BootOutcome Member
  unfolding boardreader
  read_component rank compname (host ∷ []) = failed (host_is_list compname)
  read_component rank compname (host ∷ port ∷ []) =
      done (boardreader rank compname host port "1" "-1" "")
  read_component rank compname (host ∷ port ∷ ss ∷ []) =
      done (boardreader rank compname host port ss "-1" "")
  read_component rank compname (host ∷ port ∷ ss ∷ allowed ∷ []) =
      done (boardreader rank compname host port ss allowed "")
  read_component rank compname (host ∷ port ∷ ss ∷ allowed ∷ prepend ∷ []) =
      done (boardreader rank compname host port ss allowed prepend)
  read_component rank compname values = failed (unexpected_elements compname)

  unfoldable pub add_boardreaders : ℕ → Dict (List String) → List Member → BootOutcome (List Member)
  unfolding read_component
  add_boardreaders rank [] procinfos = done procinfos
  add_boardreaders rank ((compname, values) ∷ rest) procinfos =
      read_component rank compname values then_do λ m.
      add_boardreaders (suc rank) rest (procinfos ++ m ∷ [])

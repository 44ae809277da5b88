-- ===== src/Tests/Configurations.antt =====
-- Configurations: three backends, of which the third is written past the block, a runtime with a
-- network, and one without an image.
use plcontainer.Common.{ℕ, ◌≡◌, refl, Bool, true, false, none, some, List, [], ◌∷◌, if◌then◌else◌}
use plcontainer.Container.Backend.{same_text}
use plcontainer.Configuration.Content.{Node, XmlField, xml_read_content}
use plcontainer.Configuration.Content.Laws.{expected, xml_read_content-expected}
use plcontainer.Configuration.Runtime.{
  codes, XmlElement, docker, PlcBackend, RuntimeConf, new_conf, number, Server, freed, images,
  accepted, refused,
}
use plcontainer.Configuration.Runtime.Read.{
  Reading, read_children, parse_conf, parse_runtime_configuration,
}
use plcontainer.Configuration.Runtime.Read.{kind}
use plcontainer.Configuration.Runtime.Guarded.{IsGuarded}
use plcontainer.Configuration.Document.{
  add_default, TopNode, refreshed_table, get_runtime_configurations, plc_get_runtime_configuration,
}
use plcontainer.Configuration.Document.Backed.{IsBacked}
use plcontainer.Configuration.Document.Laws.{plc_get_runtime_configuration-IsGuarded}
use plcontainer.Configuration.Runtime.Freed.{IsLastBackend, start, parse_conf-frees_twice}

abbrev several : XmlField
several = record { name = b'b' ∷ []; notnull = false; single = false }

abbrev child : List ℕ → Node
child v = record { is_element = true; name = b'b' ∷ []; content = v }

abbrev three_children : List Node
three_children = child (b'x' ∷ []) ∷ child (b'y' ∷ []) ∷ child (b'z' ∷ []) ∷ []

xml_read_content-expected_example :
    xml_read_content several three_children ≡ expected several three_children
xml_read_content-expected_example = xml_read_content-expected several three_children

abbrev local : PlcBackend
local = record { name = codes "default"; tag = docker }

abbrev server : Server
server = record {
  pg_atoi = λ v. number 512;
  is_group = λ oid. true;
  has_cgroup_auditor = λ oid. true;
  backends = add_default false [];
}

abbrev child_element : List ℕ → List ℕ → List ℕ → List ℕ → XmlElement
unfolding same_text
child_element name content key value = record {
  is_element = true;
  name = name;
  content = content;
  prop = λ p. if same_text p key then some value else none;
  children = [];
}

abbrev runtime_children : List XmlElement
runtime_children =
    child_element (codes "id") (codes "plc_python") [] []
    ∷ child_element (codes "image") (codes "python:3") [] []
    ∷ child_element (codes "command") (codes "client") [] []
    ∷ child_element (codes "setting") [] (codes "enable_network") (codes "yes")
    ∷ []

-- The runtime is entered, with its network and the control of its users.
unfoldable networked : List RuntimeConf → List Bool
networked [] = []
networked (c ∷ table) = c.enable_network ∷ c.use_user_control ∷ networked table

enters : networked (parse_runtime_configuration server [] runtime_children).table ≡ true ∷ true ∷ []
unfolding parse_runtime_configuration child_element networked
enters = refl

abbrev document : List TopNode
document = record { is_element = true; name = codes "runtime"; children = runtime_children } ∷ []

abbrev networked_conf : RuntimeConf
networked_conf = record (new_conf (codes "plc_python")) {
  image = some (codes "python:3");
  command = some (codes "client");
  backend = some local;
  use_user_control = true;
  enable_network = true;
}

finds_networked :
    plc_get_runtime_configuration
      (get_runtime_configurations server (codes "configuration") document)
      (codes "plc_python")
      (refreshed_table (get_runtime_configurations server [] []))
    ≡ some networked_conf
unfolding plc_get_runtime_configuration get_runtime_configurations child_element
finds_networked = refl

plc_get_runtime_configuration-IsGuarded_example : IsGuarded networked_conf × IsBacked networked_conf
plc_get_runtime_configuration-IsGuarded_example =
    plc_get_runtime_configuration-IsGuarded server server false [] [] [] (codes "configuration") []
      document (codes "plc_python") networked_conf refl refl finds_networked

abbrev last_child : XmlElement
last_child = child_element (codes "backend") [] (codes "name") (codes "default")

abbrev id_child : XmlElement
id_child = child_element (codes "id") (codes "plc_python") [] []

last_child-IsLastBackend : IsLastBackend last_child
unfolding kind child_element
last_child-IsLastBackend = record { element = refl; named = refl }

abbrev without_image : Reading
without_image = record {
  image_num = 0;
  command_num = 0;
  value = freed;
  conf = record (new_conf (codes "plc_python")) { backend = some local };
}

reads_backend :
    read_children server (id_child ∷ last_child ∷ []) (start (codes "plc_python"))
    ≡ accepted without_image
unfolding read_children child_element
reads_backend = refl

parse_conf-frees_twice_example :
    parse_conf server (codes "plc_python") (id_child ∷ last_child ∷ []) ≡ refused images freed
parse_conf-frees_twice_example =
    parse_conf-frees_twice server (codes "plc_python") (id_child ∷ []) last_child without_image
      last_child-IsLastBackend reads_backend refl

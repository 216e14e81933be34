-- ===== src/Generator/Models.antt =====
-- internal/configs/generator.go: the registry of models, `modelOrder` and `templateAliases`.
use rconfig_sim.Base.{if◌then◌else◌, Bytes, codes, equal, Option, none, some, List, [], ◌∷◌}

-- `model`, without its builder: that goes by `tmpl_file`.
pub record Model : Type 0 where
  pub name : Bytes
  pub vendor : Bytes
  pub template : Bytes
  pub tmpl_file : Bytes

-- A Cisco bucket, with the file that it renders.
abbrev cisco_bucket : Bytes → Bytes → Model
cisco_bucket name file = record {
  name = name;
  vendor = codes "Cisco";
  template = codes "cisco_ios";
  tmpl_file = file;
}

abbrev pub ciena_model : Model
ciena_model = record {
  name = codes "ciena-6500-tl1";
  vendor = codes "Ciena";
  template = codes "ciena_tl1";
  tmpl_file = codes "ciena_tl1_eqpt.tmpl";
}

abbrev pub ciena_gne_model : Model
ciena_gne_model = record {
  name = codes "ciena-6500-tl1-gne";
  vendor = codes "Ciena";
  template = codes "ciena_tl1";
  tmpl_file = codes "ciena_tl1_gne.tmpl";
}

abbrev pub infinera_model : Model
infinera_model = record {
  name = codes "infinera-dtnx-tl1";
  vendor = codes "Infinera";
  template = codes "infinera_tl1";
  tmpl_file = codes "infinera_tl1_node.tmpl";
}

abbrev pub cisco_ons_model : Model
cisco_ons_model = record {
  name = codes "cisco-ons15454-tl1";
  vendor = codes "Cisco";
  template = codes "cisco_ons_tl1";
  tmpl_file = codes "cisco_ons_tl1_gne.tmpl";
}

abbrev pub xl_file : Bytes
xl_file = codes "xl.tmpl"

-- `modelOrder`.
abbrev pub model_order : List Model
model_order =
    cisco_bucket (codes "sm") (codes "sm.tmpl")
    ∷ cisco_bucket (codes "md") (codes "md.tmpl")
    ∷ cisco_bucket (codes "lg") (codes "lg.tmpl")
    ∷ cisco_bucket (codes "xl") xl_file
    ∷ cisco_bucket (codes "2xl") xl_file
    ∷ cisco_bucket (codes "3xl") xl_file
    ∷ cisco_bucket (codes "4xl") xl_file
    ∷ cisco_bucket (codes "5xl") xl_file
    ∷ cisco_bucket (codes "6xl") xl_file
    ∷ ciena_model
    ∷ ciena_gne_model
    ∷ infinera_model
    ∷ cisco_ons_model
    ∷ []

-- `registry[name]`.
unfoldable pub find_model : Bytes → List Model → Option Model
find_model name [] = none
find_model name (m ∷ ms) =
    let rest = find_model name ms in if equal m.name name then some m else rest

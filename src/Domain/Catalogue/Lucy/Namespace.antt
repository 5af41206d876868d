-- ===== src/Domain/Catalogue/Lucy/Namespace.antt =====
-- domain/catalogue/lucy/namespace.py: the name that every entry of the package repeats.
use settings_api.Prelude.{String}

abbrev pub namespace : String
namespace = "lucy"

-- ===== src/Sql/Concrete.antt =====
-- A database that keeps the texts of the statements and answers each with one row.
use server_unit.Base.{Bool, true, some, List, [], ◌∷◌, String}
use server_unit.Base.Int.{pos}
use server_unit.Sql.{SqlLib}

-- `up` says whether it takes connections.
abbrev pub statements : Bool → SqlLib
statements up = record {
  Db = List String;
  Row = String;
  connects = λ url username password. up;
  has_schema = λ name. true;
  run = λ query db. (some ("1" ∷ []), query ∷ db);
  string_of = λ row column. some row;
  first_string = λ row. some row;
  int_of = λ row column. some (pos 1);
  first_int = λ row. some (pos 1);
}

-- ===== src/Std.antt =====
-- What the program uses of the C++ standard library: `std::string::find` and `substr`, `size_t`
-- arithmetic, `std::to_string`, `std::stoi` and the map types.
pub mod Text
pub mod Decimal
pub mod Dict
pub mod Cin

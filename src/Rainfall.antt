-- ===== src/Rainfall.antt =====
-- LAB_SE/Session1/Assignment 2.1/CSMCS26A017_Lab2_1.c: rainfall records, their extremes, two sorts
-- and the search of a range.
pub mod Doubles
pub mod Record
pub mod Segment
pub mod Sorted
pub mod Merge
pub mod Quick
pub mod Search
pub mod Extremes
pub mod Csv
pub mod Program
mod Tests
